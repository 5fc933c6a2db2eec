-- ===== src/ErrorHandling/Examples.antt =====
-- Exceptions with texts as lists of numbers: a suffix is one number, joined at the end.
use cloudify_common.ErrorHandling.RoundTrip.{Known, class_of, IsReadAs, deserialize-serialize}
use cloudify_common.ErrorHandling.{
  Error, deserialize_known_exception, serialize_known_exception, Texts, recoverable, http,
  serialization_retry, other_class, subclass_of, operation_retry,
}
use cloudify_common.Prelude.{ℕ, ◌+◌, ◌≡◌, refl, true, none, some, List, [], ◌∷◌, ◌++◌, arith}
use cloudify_common.Prelude.Set.{mem}

abbrev head_of : List ℕ → ℕ
head_of [] = 0
head_of (x ∷ s) = x

abbrev texts : Texts (List ℕ)
texts = record {
  suffix = λ n. (n + 100) ∷ [];
  contains = λ s m. mem (head_of s) m;
  join = λ m s. m ++ s;
  http_text = λ code url m. code ∷ url ++ m;
  empty = [];
}

mem-snoc : (m : List ℕ) (x : ℕ) → mem x (m ++ x ∷ []) ≡ true
unfolding mem
mem-snoc [] x = ground arith
mem-snoc (y ∷ m) x = ground (arith, mem-snoc m x)

abbrev lost_agent : Error (List ℕ)
lost_agent = record {
  class = other_class (7 ∷ []);
  message = 1 ∷ 2 ∷ [];
  retry_after = none;
  url = [];
  code = 0;
  causes = none;
}

abbrev try_later : Error (List ℕ)
try_later = record lost_agent { class = serialization_retry; retry_after = some 5 }

abbrev later : Error (List ℕ)
later = record {
  class = recoverable;
  message = 1 ∷ 2 ∷ 105 ∷ [];
  retry_after = some 5;
  url = [];
  code = 0;
  causes = some [];
}

program : Unit {0}
unfolding serialize_known_exception deserialize_known_exception mem
program = tt

try_later_received :
    deserialize_known_exception texts (serialize_known_exception try_later) ≡ some later
unfolding program
try_later_received = refl

abbrev own_error : Error (List ℕ)
own_error = record try_later { class = subclass_of (9 ∷ []) operation_retry }

deserialize-serialize_example :
    (e' : Error (List ℕ)) × (k : Known) × (deserialize_known_exception texts
        (serialize_known_exception own_error)
      ≡ some e')
    × (e'.class ≡ class_of k)
    × IsReadAs own_error.class k
    × (e'.retry_after ≡ some 5)
    × (e'.causes ≡ some [])
deserialize-serialize_example = deserialize-serialize texts own_error

-- The text of an HttpException, which has its code and url, gets them once more.
http_grows :
    deserialize_known_exception texts (
      serialize_known_exception
        (record lost_agent { class = http; message = 4 ∷ 8 ∷ 1 ∷ []; code = 4; url = 8 ∷ [] }))
    ≡ some (record later {
      class = http;
      message = 4 ∷ 8 ∷ 4 ∷ 8 ∷ 1 ∷ [];
      retry_after = none;
      code = 4;
      url = 8 ∷ [];
    })
unfolding program
http_grows = refl
