-- ===== src/ErrorHandling.antt =====
-- cloudify/error_handling.py: an exception is turned into a payload that another process reads
-- back as one of the exceptions of cloudify/exceptions.py. A text is `T`; `suffix n` is the text
-- '[retry_after=n]', `contains` is Python's `in`, and `join` puts a text, a space and a suffix
-- together. The traceback in the payload is for the reader only, and is left out.
mod RoundTrip
mod Examples
use cloudify_common.Prelude.{
  List, ℕ, Option, get_or, Bool, some, [], true, ◌∷◌, none, if◌then◌else◌, false, ◌++◌,
}

-- The classes of cloudify/exceptions.py that the code names, two subclasses of them, a subclass that
-- a user wrote, by its name and its base, and any other exception by its class name.
pub data ExceptionClass (T : Type 0) : Type 0 where
  non_recoverable recoverable operation_retry http stop_agent workflow_failed : ExceptionClass T
  process_kill_cancelled serialization_retry : ExceptionClass T
  subclass_of : T → ExceptionClass T → ExceptionClass T
  other_class : T → ExceptionClass T

-- An exception: its class, what `format_exception` gives, and the attributes that it has.
-- `causes` is none for an exception without that attribute.
pub record Error (T : Type 0) : Type 0 where
  pub class : ExceptionClass T
  pub message : T
  pub retry_after : Option ℕ
  pub url : T
  pub code : ℕ
  pub causes : Option (List T)

-- The members of `known_exception_type_args`.
pub data Argument (T : Type 0) : Type 0 where
  text : T → Argument T
  number : ℕ → Argument T
  none_argument : Argument T

pub record Payload (T : Type 0) : Type 0 where
  pub exception_type : ExceptionClass T
  pub message : T
  pub known_exception_type : ExceptionClass T
  pub known_exception_type_args : List (Argument T)
  pub causes : List T
  pub append_message : Bool

module _ {T : Type 0} where
  -- The chain of `isinstance` tests, a subclass before its base.
  unfoldable pub known_class : ExceptionClass T → ExceptionClass T
  known_class http = http
  known_class non_recoverable = non_recoverable
  known_class process_kill_cancelled = non_recoverable
  known_class operation_retry = operation_retry
  known_class recoverable = recoverable
  known_class serialization_retry = recoverable
  known_class stop_agent = stop_agent
  known_class workflow_failed = workflow_failed
  known_class (subclass_of name base) = known_class base
  known_class (other_class name) = recoverable

  abbrev optional_number : Option ℕ → Argument T
  optional_number none = none_argument
  optional_number (some n) = number n

  -- `known_exception_type_args`, by the same chain, from the attributes of the exception.
  unfoldable pub known_args : ExceptionClass T → Option ℕ → T → ℕ → List (Argument T)
  known_args http retry_after url code = text url ∷ number code ∷ []
  known_args operation_retry retry_after url code = optional_number retry_after ∷ []
  known_args recoverable retry_after url code = optional_number retry_after ∷ []
  known_args serialization_retry retry_after url code = optional_number retry_after ∷ []
  known_args non_recoverable retry_after url code = []
  known_args process_kill_cancelled retry_after url code = []
  known_args stop_agent retry_after url code = []
  known_args workflow_failed retry_after url code = []
  known_args (subclass_of name base) retry_after url code = known_args base retry_after url code
  known_args (other_class name) retry_after url code = []

  unfoldable pub is_http : ExceptionClass T → Bool
  is_http http = true
  is_http operation_retry = false
  is_http recoverable = false
  is_http serialization_retry = false
  is_http non_recoverable = false
  is_http process_kill_cancelled = false
  is_http stop_agent = false
  is_http workflow_failed = false
  is_http (subclass_of name base) = is_http base
  is_http (other_class name) = false

  unfoldable pub serialize_known_exception : Error T → Payload T
  unfolding known_class known_args is_http
  serialize_known_exception e = record {
    exception_type = e.class;
    message = e.message;
    known_exception_type = known_class e.class;
    known_exception_type_args = known_args e.class e.retry_after e.url e.code;
    causes = get_or e.causes [];
    append_message = is_http e.class;
  }

-- The texts that the constructors of the exceptions build.
pub record Texts (T : Type 0) : Type 0 where
  pub suffix : ℕ → T
  pub contains : T → T → Bool
  pub join : T → T → T
  -- "{code} ({url}) : {message}"
  pub http_text : ℕ → T → T → T
  pub empty : T

module _ {T : Type 0} (texts : Texts T) where
  open texts use {suffix, contains, join, http_text, empty}

  -- `RecoverableError.__init__`: the message.
  unfoldable pub recoverable_message : T → Option ℕ → T
  recoverable_message message none = message
  recoverable_message message (some n) =
      if contains (suffix n) message then message else join message (suffix n)

  abbrev plain_error : ExceptionClass T → T → List T → Error T
  plain_error class message causes = record {
    class = class;
    message = message;
    retry_after = none;
    url = empty;
    code = 0;
    causes = some causes;
  }

  -- The call of a known class with its arguments, the message first or, for an HttpException, last.
  -- `none` is a call that the class does not take.
  unfoldable pub construct : ExceptionClass T → List (Argument T) → List T → Option (Error T)
  unfolding recoverable_message
  construct non_recoverable (text m ∷ []) causes = some (plain_error non_recoverable m causes)
  construct stop_agent (text m ∷ []) causes = some (plain_error stop_agent m causes)
  construct workflow_failed (text m ∷ []) causes = some (plain_error workflow_failed m causes)
  construct recoverable (text m ∷ number n ∷ []) causes =
      some (record (plain_error recoverable (recoverable_message m (some n)) causes) {
        retry_after = some n;
      })
  construct recoverable (text m ∷ none_argument ∷ []) causes =
      some (plain_error recoverable m causes)
  construct recoverable (text m ∷ []) causes = some (plain_error recoverable m causes)
  construct operation_retry (text m ∷ number n ∷ []) causes =
      some (record (plain_error operation_retry (recoverable_message m (some n)) causes) {
        retry_after = some n;
      })
  construct operation_retry (text m ∷ none_argument ∷ []) causes =
      some (plain_error operation_retry m causes)
  construct http (text url ∷ number code ∷ text m ∷ []) causes =
      some (record (plain_error http (http_text code url m) causes) { url = url; code = code })
  construct _ _ _ = none

  unfoldable pub deserialize_known_exception : Payload T → Option (Error T)
  unfolding construct
  deserialize_known_exception p =
      construct p.known_exception_type
        (if p.append_message
          then p.known_exception_type_args ++ text p.message ∷ []
          else text p.message ∷ p.known_exception_type_args)
        p.causes
