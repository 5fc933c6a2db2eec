-- ===== src/ErrorHandling/RoundTrip.antt =====
-- What an exception is after it was sent to another process.
use cloudify_common.Prelude.{
  ℕ, ◌≡◌, refl, Bool, true, false, Option, none, some, inl, inr, ◌⊎◌, ◌||◌, ◌∙◌, List, [], get_or,
  arith, if◌then◌else◌,
}
use cloudify_common.ErrorHandling.{
  ExceptionClass, non_recoverable, recoverable, operation_retry, http, stop_agent, workflow_failed,
  process_kill_cancelled, serialization_retry, subclass_of, other_class, is_http, Error, Texts,
  known_class, serialize_known_exception, deserialize_known_exception,
}

-- The classes that can be read back.
pub data Known : Type 0 where
  known_http known_non_recoverable known_operation_retry known_recoverable : Known
  known_stop_agent known_workflow_failed : Known

abbrev pub same_known : Known → Known → Bool
same_known known_http known_http = true
same_known known_http known_non_recoverable = false
same_known known_http known_operation_retry = false
same_known known_http known_recoverable = false
same_known known_http known_stop_agent = false
same_known known_http known_workflow_failed = false
same_known known_non_recoverable known_http = false
same_known known_non_recoverable known_non_recoverable = true
same_known known_non_recoverable known_operation_retry = false
same_known known_non_recoverable known_recoverable = false
same_known known_non_recoverable known_stop_agent = false
same_known known_non_recoverable known_workflow_failed = false
same_known known_operation_retry known_http = false
same_known known_operation_retry known_non_recoverable = false
same_known known_operation_retry known_operation_retry = true
same_known known_operation_retry known_recoverable = false
same_known known_operation_retry known_stop_agent = false
same_known known_operation_retry known_workflow_failed = false
same_known known_recoverable known_http = false
same_known known_recoverable known_non_recoverable = false
same_known known_recoverable known_operation_retry = false
same_known known_recoverable known_recoverable = true
same_known known_recoverable known_stop_agent = false
same_known known_recoverable known_workflow_failed = false
same_known known_stop_agent known_http = false
same_known known_stop_agent known_non_recoverable = false
same_known known_stop_agent known_operation_retry = false
same_known known_stop_agent known_recoverable = false
same_known known_stop_agent known_stop_agent = true
same_known known_stop_agent known_workflow_failed = false
same_known known_workflow_failed known_http = false
same_known known_workflow_failed known_non_recoverable = false
same_known known_workflow_failed known_operation_retry = false
same_known known_workflow_failed known_recoverable = false
same_known known_workflow_failed known_stop_agent = false
same_known known_workflow_failed known_workflow_failed = true

module _ {T : Type 0} where
  abbrev pub class_of : Known → ExceptionClass T
  class_of known_http = http
  class_of known_non_recoverable = non_recoverable
  class_of known_operation_retry = operation_retry
  class_of known_recoverable = recoverable
  class_of known_stop_agent = stop_agent
  class_of known_workflow_failed = workflow_failed

  -- `isinstance`, by the bases of the classes.
  abbrev pub is_a : ExceptionClass T → Known → Bool
  is_a http k = same_known k known_http || same_known k known_non_recoverable
  is_a non_recoverable k = same_known k known_non_recoverable
  is_a operation_retry k = same_known k known_operation_retry || same_known k known_recoverable
  is_a recoverable k = same_known k known_recoverable
  is_a stop_agent k = same_known k known_stop_agent
  is_a workflow_failed k = same_known k known_workflow_failed
  is_a process_kill_cancelled k = same_known k known_non_recoverable
  is_a serialization_retry k = same_known k known_recoverable
  is_a (subclass_of name base) k = is_a base k
  is_a (other_class name) k = false

  -- The known class that an exception is read back as: the closest one that it is an instance of,
  -- which is one of all others that it is an instance of, and RecoverableError if it is of none.
  abbrev pub IsReadAs : ExceptionClass T → Known → Type 0
  IsReadAs class k =
      ((is_a class k ≡ true) × ((k' : Known) → is_a class k' ≡ true → is_a (class_of k) k' ≡ true))
      ⊎ ((k ≡ known_recoverable) × ((k' : Known) → is_a class k' ≡ false))

  known_class-IsReadAs :
      (class : ExceptionClass T) → (k : Known) × (known_class class ≡ class_of k) × IsReadAs class k
  unfolding known_class
  known_class-IsReadAs http = (known_http, refl, inl (refl, λ k' h. h))
  known_class-IsReadAs non_recoverable = (known_non_recoverable, refl, inl (refl, λ k' h. h))
  known_class-IsReadAs operation_retry = (known_operation_retry, refl, inl (refl, λ k' h. h))
  known_class-IsReadAs recoverable = (known_recoverable, refl, inl (refl, λ k' h. h))
  known_class-IsReadAs stop_agent = (known_stop_agent, refl, inl (refl, λ k' h. h))
  known_class-IsReadAs workflow_failed = (known_workflow_failed, refl, inl (refl, λ k' h. h))
  known_class-IsReadAs process_kill_cancelled = (known_non_recoverable, refl, inl (refl, λ k' h. h))
  known_class-IsReadAs serialization_retry = (known_recoverable, refl, inl (refl, λ k' h. h))
  known_class-IsReadAs (subclass_of name base) = known_class-IsReadAs base
  known_class-IsReadAs (other_class name) = (known_recoverable, refl, inr (refl, λ k'. refl))

-- Whether an exception of the class has the attribute `retry_after`, which RecoverableError gives it.
abbrev pub has_retry_after : {T : Type 0} → ExceptionClass T → Bool
has_retry_after class = is_a class known_recoverable

module _ {T : Type 0} (texts : Texts T) where
  received :
      (class : ExceptionClass T) (message : T) (retry_after : Option ℕ) (url : T) (code : ℕ)
      → (causes : Option (List T))
      → let e : Error T = record {
        class = class;
        message = message;
        retry_after = retry_after;
        url = url;
        code = code;
        causes = causes;
      } in
        (e' : Error T) × (deserialize_known_exception texts (serialize_known_exception e) ≡ some e')
        × (e'.class ≡ known_class class)
        × (e'.retry_after ≡ (if has_retry_after class then retry_after else none))
        × (e'.causes ≡ some (get_or causes []))
  unfolding deserialize_known_exception serialize_known_exception
  received non_recoverable m (some n) u c cs = (_, refl, refl, refl, refl)
  received non_recoverable m none u c cs = (_, refl, refl, refl, refl)
  received recoverable m (some n) u c cs = (_, refl, refl, refl, refl)
  received recoverable m none u c cs = (_, refl, refl, refl, refl)
  received operation_retry m (some n) u c cs = (_, refl, refl, refl, refl)
  received operation_retry m none u c cs = (_, refl, refl, refl, refl)
  received http m r u c cs = (_, refl, refl, refl, refl)
  received stop_agent m r u c cs = (_, refl, refl, refl, refl)
  received workflow_failed m r u c cs = (_, refl, refl, refl, refl)
  received process_kill_cancelled m r u c cs = (_, refl, refl, refl, refl)
  received serialization_retry m (some n) u c cs = (_, refl, refl, refl, refl)
  received serialization_retry m none u c cs = (_, refl, refl, refl, refl)
  received (subclass_of name base) m r u c cs = received base m r u c cs
  received (other_class name) m r u c cs = (_, refl, refl, refl, refl)

  -- Every exception can be read back, as one of the known classes: as the closest one that it is an
  -- instance of, also if a user wrote its class, and as a RecoverableError if it is of none;
  -- `retry_after` and the causes are kept.
  pub deserialize-serialize :
      (e : Error T)
      → (e' : Error T) × (k : Known) × (deserialize_known_exception texts
            (serialize_known_exception e)
          ≡ some e')
        × (e'.class ≡ class_of k)
        × IsReadAs e.class k
        × (e'.retry_after ≡ (if has_retry_after e.class then e.retry_after else none))
        × (e'.causes ≡ some (get_or e.causes []))
  deserialize-serialize e =
      let (e', done, as_known, retry, causes) =
        received e.class e.message e.retry_after e.url e.code e.causes in
      let (k, named, read_as) = known_class-IsReadAs e.class in
      (e', k, done, as_known ∙ named, read_as, retry, causes)

  module _
      (joined : (m : T) (n : ℕ)
        → texts.contains (texts.suffix n) (texts.join m (texts.suffix n)) ≡ true) where
    settled :
        (class : ExceptionClass T) (message : T) (retry_after : Option ℕ) (url : T) (code : ℕ)
        → (causes : Option (List T)) (e' : Error T) → is_http class ≡ false
        → deserialize_known_exception texts (
            serialize_known_exception (record {
              class = class;
              message = message;
              retry_after = retry_after;
              url = url;
              code = code;
              causes = causes;
            }))
          ≡ some e'
        → deserialize_known_exception texts (serialize_known_exception e') ≡ some e'
    unfolding deserialize_known_exception serialize_known_exception is_http
    settled non_recoverable m r u c cs e' ne h = ground arith
    settled recoverable m (some n) u c cs e' ne h = ground (arith, joined m n)
    settled recoverable m none u c cs e' ne h = ground arith
    settled operation_retry m (some n) u c cs e' ne h = ground (arith, joined m n)
    settled operation_retry m none u c cs e' ne h = ground arith
    settled http m r u c cs e' ne h = cc
    settled stop_agent m r u c cs e' ne h = ground arith
    settled workflow_failed m r u c cs e' ne h = ground arith
    settled process_kill_cancelled m r u c cs e' ne h = ground arith
    settled serialization_retry m (some n) u c cs e' ne h = ground (arith, joined m n)
    settled serialization_retry m none u c cs e' ne h = ground arith
    settled (subclass_of name base) m r u c cs e' ne h = settled base m r u c cs e' ne h
    settled (other_class name) m r u c cs e' ne h = ground arith

    -- An exception that was read back, and is of no HttpException, is sent on unchanged: its text does
    -- not grow from one process to the next.
    second_hop :
        (e e' : Error T)
        → is_http e.class ≡ false
        → deserialize_known_exception texts (serialize_known_exception e) ≡ some e'
        → deserialize_known_exception texts (serialize_known_exception e') ≡ some e'
    second_hop e e' ne h = settled e.class e.message e.retry_after e.url e.code e.causes e' ne h
