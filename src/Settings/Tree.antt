-- ===== src/Settings/Tree.antt =====
-- `expand_value` of src/config/env.rs: `${NAME}` in every string of a TOML tree. Numbers, truth values and dates are
-- one kind of leaf, whose type is an argument.
use blazebee.Base.{Option, none, some, Result, ok, err, ◌>>=◌, if◌then◌else◌}
use blazebee.Base.Text.{Text, contains}
use blazebee.Settings.Expand.{EnvError, malformed, expand}

-- toml::Value
mutual
  pub data Value (S : Type 0) : Type 0 where
    string : Text → Value S
    scalar : S → Value S
    array : Items S → Value S
    table : Fields S → Value S

  pub data Items (S : Type 0) : Type 0 where
    nil : Items S
    cons : Value S → Items S → Items S

  pub data Fields (S : Type 0) : Type 0 where
    end : Fields S
    field : Text → Value S → Fields S → Fields S

-- The result of `expand`, which never runs out of fuel (Settings.Expand.expand-total).
abbrev pub expand_text : (Text → Option Text) → Text → Result EnvError Text
expand_text lookup s = elim (expand lookup s) [ some r ↦ r | none ↦ err (malformed 0) ]

unfoldable mutual
  pub expand_value : {S : Type 0} → (Text → Option Text) → Value S → Result EnvError (Value S)
  expand_value lookup (string s) =
      if contains s b'$' then (expand_text lookup s >>= λ t. ok (string t)) else ok (string s)
  expand_value lookup (scalar x) = ok (scalar x)
  expand_value lookup (array xs) = expand_items lookup xs >>= λ ys. ok (array ys)
  expand_value lookup (table fs) = expand_fields lookup fs >>= λ gs. ok (table gs)

  pub expand_items : {S : Type 0} → (Text → Option Text) → Items S → Result EnvError (Items S)
  expand_items lookup nil = ok nil
  expand_items lookup (cons x xs) =
      expand_value lookup x >>= λ y. expand_items lookup xs >>= λ ys. ok (cons y ys)

  pub expand_fields : {S : Type 0} → (Text → Option Text) → Fields S → Result EnvError (Fields S)
  expand_fields lookup end = ok end
  expand_fields lookup (field k x fs) =
      expand_value lookup x >>= λ y. expand_fields lookup fs >>= λ gs. ok (field k y gs)
