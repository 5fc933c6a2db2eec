-- ===== src/Functions/Handler.antt =====
-- `_RuntimeEvaluationHandler` of dsl_parser/functions.py: what functions ask of the storage, with a
-- cache for each kind of question. The storage, the nodes and instances that it holds, and the text
-- that `str` makes of a value are parameters.
use Prim.Native.String.{◌++◌ as append}
use cloudify_common.Prelude.{
  ℕ, String, Bool, true, false, Option, none, some, List, [], ◌∷◌, if◌then◌else◌, string_eq, Result,
  ok, ◌>>=◌,
}
use cloudify_common.Prelude.Dict.{Dict, get, put}
use cloudify_common.Functions.{Value, null, boolean, int, negative, text, list_of, dict_of}

-- `isinstance(attr, int)`
unfoldable pub is_int : Value → Bool
is_int (int n) = true
is_int (negative n) = true
is_int (boolean b) = true
is_int null = false
is_int (text x) = false
is_int (list_of values) = false
is_int (dict_of entries) = false

-- What the storage answers; a secret is its value.
pub record Storage (Node NodeInstance StorageError : Type 0) : Type 0 where
  pub get_input : String → Result StorageError Value
  pub get_node : String → Result StorageError Node
  pub get_node_instances : String → Result StorageError (List NodeInstance)
  pub get_node_instance : String → Result StorageError NodeInstance
  pub get_secret : String → Result StorageError Value
  pub get_capability : List Value → Result StorageError Value
  pub get_group_capability : List Value → Result StorageError Value
  pub get_label : String → Option ℕ → Result StorageError Value
  pub get_environment_capability : List Value → Result StorageError Value

pub record Handler (Node NodeInstance : Type 0) : Type 0 where
  pub nodes_cache : Dict String Node
  pub node_to_node_instances : Dict String (List NodeInstance)
  pub node_instances_cache : Dict String NodeInstance
  pub secrets_cache : Dict String Value
  pub capabilities_cache : Dict String Value
  pub labels_cache : Dict String Value
  pub group_capabilities_cache : Dict String Value
  pub environment_capabilities_cache : Dict String Value

-- `_RuntimeEvaluationHandler.__init__`
unfoldable pub new_handler : {Node NodeInstance : Type 0} → Handler Node NodeInstance
new_handler = record {
  nodes_cache = [];
  node_to_node_instances = [];
  node_instances_cache = [];
  secrets_cache = [];
  capabilities_cache = [];
  labels_cache = [];
  group_capabilities_cache = [];
  environment_capabilities_cache = [];
}

-- `if key not in cache: cache[key] = ...` and `return cache[key]`
unfoldable pub cached :
    {StorageError A : Type 0}
    → String
    → Result StorageError A
    → Dict String A
    → Result StorageError (A × Dict String A)
unfolding get put
cached key answer cache = elim (get key cache) [
  | some value ↦ ok (value, cache)
  | none ↦ do value ← answer; ok (value, put key value cache)
]

module _ (str : Value → String) where
  unfoldable pub attribute_text : Value → String
  unfolding is_int
  attribute_text attr =
      if is_int attr then append "[" (append (str attr) "]") else append "." (str attr)

  unfoldable pub join_attributes : String → List Value → String
  unfolding attribute_text
  join_attributes s [] = s
  join_attributes s (attr ∷ rest) = join_attributes (append s (attribute_text attr)) rest

  -- `_convert_attribute_list_to_python_syntax_string`
  unfoldable pub convert_attribute_list : List Value → String
  unfolding join_attributes
  convert_attribute_list [] = ""
  convert_attribute_list (attr ∷ rest) = join_attributes (str attr) rest

  unfoldable pub labels_cache_entry : String → Option ℕ → String
  labels_cache_entry label_key none = label_key
  labels_cache_entry label_key (some i) = append (append label_key "_") (str (int i))

module _ {Node NodeInstance StorageError : Type 0} (str : Value → String)
    (id : NodeInstance → String) (storage : Storage Node NodeInstance StorageError) where
  abbrev Found : Type 0 → Type 0
  Found A = Result StorageError (A × Handler Node NodeInstance)

  unfoldable pub get_node : String → Handler Node NodeInstance → Found Node
  unfolding cached
  get_node node_id h = do
    found ← cached node_id (storage.get_node node_id) h.nodes_cache
    ok (found.0, record h { nodes_cache = found.1 })

  unfoldable pub cache_instances :
      List NodeInstance → Dict String NodeInstance → Dict String NodeInstance
  unfolding put
  cache_instances [] cache = cache
  cache_instances (node_instance ∷ rest) cache =
      cache_instances rest (put (id node_instance) node_instance cache)

  unfoldable pub get_node_instances : String → Handler Node NodeInstance → Found (List NodeInstance)
  unfolding cache_instances get put
  get_node_instances node_id h = elim (get node_id h.node_to_node_instances) [
    | some node_instances ↦ ok (node_instances, h)
    | none ↦ do
      node_instances ← storage.get_node_instances node_id
      ok (
        node_instances,
        record h {
          node_to_node_instances = put node_id node_instances h.node_to_node_instances;
          node_instances_cache = cache_instances node_instances h.node_instances_cache;
        },
      )
  ]

  unfoldable pub get_node_instance : String → Handler Node NodeInstance → Found NodeInstance
  unfolding cached
  get_node_instance node_instance_id h = do
    found ←
        cached node_instance_id (storage.get_node_instance node_instance_id) h.node_instances_cache
    ok (found.0, record h { node_instances_cache = found.1 })

  unfoldable pub get_secret : String → Handler Node NodeInstance → Found Value
  unfolding cached
  get_secret secret_key h = do
    found ← cached secret_key (storage.get_secret secret_key) h.secrets_cache
    ok (found.0, record h { secrets_cache = found.1 })

  unfoldable pub get_capability : List Value → Handler Node NodeInstance → Found Value
  unfolding cached convert_attribute_list
  get_capability path h = do
    found ←
        cached (convert_attribute_list str path) (storage.get_capability path) h.capabilities_cache
    ok (found.0, record h { capabilities_cache = found.1 })

  unfoldable pub get_group_capability : List Value → Handler Node NodeInstance → Found Value
  unfolding cached convert_attribute_list
  get_group_capability path h = do
    found ←
        cached (convert_attribute_list str path) (storage.get_group_capability path)
          h.group_capabilities_cache
    ok (found.0, record h { group_capabilities_cache = found.1 })

  unfoldable pub get_label : String → Option ℕ → Handler Node NodeInstance → Found Value
  unfolding cached labels_cache_entry
  get_label label_key values_list_index h = do
    found ←
        cached (labels_cache_entry str label_key values_list_index)
          (storage.get_label label_key values_list_index) h.labels_cache
    ok (found.0, record h { labels_cache = found.1 })

  unfoldable pub get_environment_capability : List Value → Handler Node NodeInstance → Found Value
  unfolding cached convert_attribute_list
  get_environment_capability path h = do
    found ←
        cached (convert_attribute_list str path) (storage.get_environment_capability path)
          h.environment_capabilities_cache
    ok (found.0, record h { environment_capabilities_cache = found.1 })
