-- ===== src/Config/Loading.antt =====
-- `load_config` of src/hermes_a2a/config.py.
use hermes_a2a_v.Prelude.{
  inr, inl, Option-cases, String, ◌≡◌, refl, Option, none, some, [], if◌then◌else◌, arith, Result,
  ok, raise, is_some, str_eq, eq_iff,
}
use hermes_a2a_v.Dict.{Dict, get, put, pop, get-put, get-pop, string_eq}
use hermes_a2a_v.Config.{GatewayConfig, default_config}

-- A value of the YAML document: a mapping, or another value of PyYAML's
pub data Node (V : Type 0) : Type 0 where
  mapping : Dict String V → Node V
  scalar : V → Node V

module _ {V : Type 0} (text : String → V) where
  -- `data["logging"].get("level", "INFO")`
  level_of : Dict String V → V
  level_of section = elim (get "level" section) [ none ↦ text "INFO" | some v ↦ v ]

  -- `data.setdefault(key, value)`
  setdefault : String → Node V → Dict String (Node V) → Dict String (Node V)
  setdefault key value data_ = if is_some (get key data_) then data_ else put key value data_

  or_node : Option (Node V) → Node V → Node V
  or_node none v = v
  or_node (some w) v = w

  get-setdefault :
      (j key : String) (v : Node V) (d : Dict String (Node V))
      → get key (setdefault j v d)
        ≡ (if str_eq j key then some (or_node (get j d) v) else get key d)
  unfolding setdefault or_node
  get-setdefault j key v d = elim (Option-cases (get j d)) [
    | inl e ↦ rw (e, setdefault) (get-put j key v d)
    | inr (w, e) ↦ rw (e, setdefault) (ground (arith, eq_iff j key, e))
  ]

  flatten_section : Option (Node V) → Dict String (Node V) → Dict String (Node V)
  unfolding level_of setdefault
  flatten_section none data_ = data_
  flatten_section (some (scalar v)) data_ = data_
  flatten_section (some (mapping section)) data_ =
      pop "logging" (setdefault "logging_level" (scalar (level_of section)) data_)

  -- The nested `logging.level` as the flat `logging_level`
  unfoldable pub flatten_logging : Dict String (Node V) → Dict String (Node V)
  unfolding flatten_section
  flatten_logging data_ = flatten_section (get "logging" data_) data_

  -- The level that a document asks for
  unfoldable pub level_or : Option (Node V) → Dict String V → Node V
  unfolding level_of or_node
  level_or flat section = or_node flat (scalar (level_of section))

  -- A document with a mapping under `logging` is flattened to one without that key, whose level is the
  -- flat one if there is one, else the nested one, else "INFO"; every other key keeps its value.
  pub flatten_logging_lem :
      (data_ : Dict String (Node V)) (section : Dict String V) (key : String)
      → get "logging" data_ ≡ some (mapping section)
      → get key (flatten_logging data_) ≡ (
          if str_eq "logging" key
          then none
          else if str_eq "logging_level" key
          then some (level_or (get "logging_level" data_) section)
          else get key data_)
  unfolding flatten_logging level_or
  flatten_logging_lem data_ section key found =
      rw
        (
          found,
          get-pop "logging" key (setdefault "logging_level" (scalar (level_of section)) data_),
        )
        (rw (get-setdefault "logging_level" key (scalar (level_of section)) data_) refl)

module _ {V E : Type 0} (text : String → V) (read_file : String → Option String)
    (safe_load : String → Result E (Option (Dict String (Node V))))
    (model_validate : Dict String (Node V) → Result E GatewayConfig) where
  validated : Result E (Option (Dict String (Node V))) → Result E GatewayConfig
  validated (raise e) = raise e
  validated (ok none) = model_validate []
  validated (ok (some data_)) = model_validate (flatten_logging text data_)

  loaded : Option String → Result E GatewayConfig
  unfolding validated
  loaded none = ok default_config
  loaded (some file) = validated (safe_load file)

  chosen : String → Option String → String
  chosen default_path none = default_path
  chosen default_path (some path) = path

  -- `load_config`: `read_file` gives the text of a path that is a file, `safe_load` gives `none` for an
  -- empty document.
  unfoldable pub load_config : String → Option String → Result E GatewayConfig
  unfolding loaded chosen
  load_config default_path path = loaded (read_file (chosen default_path path))
