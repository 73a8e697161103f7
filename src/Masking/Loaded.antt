-- ===== src/Masking/Loaded.antt =====
-- The values that the loading of masked variables finds.
use skytest_agent.Prelude.{
  ◌≡◌, refl, ◌∙◌, Bool, true, false, ◌||◌, Option, none, some, List, [], ◌∷◌, Text, is_empty,
  text_eq, text_eq→≡, text_eq_refl, if◌then◌else◌, map, find_first, count_where, arith, Bool-cases,
  inl, inr,
}
use skytest_agent.Masking.Hidden.{has_value}
use skytest_agent.Masking.Variables.{
  VariableConfig, Entry, set_entry, set_configs, unique_non_empty_from, unique_non_empty,
}

abbrev pub is_named : Text → VariableConfig → Bool
is_named name config = text_eq name config.name

-- `map.get`
abbrev pub get_entry : Text → List Entry → Option Text
get_entry key [] = none
get_entry key (e ∷ entries) = if text_eq key e.key then some e.item else get_entry key entries

get_entry-set_entry :
    (key k item : Text) (entries : List Entry)
    → get_entry key (set_entry k item entries)
      ≡ (if text_eq key k then some item else get_entry key entries)
get_entry-set_entry key k item [] = refl
get_entry-set_entry key k item (e ∷ entries) = elim (Bool-cases (text_eq k e.key)) [
  | inl t ↦ rw (t, text_eq→≡ k e.key t) (ground arith)
  | inr f ↦ elim (Bool-cases (text_eq key k)) [
    | inl same ↦
        ground (arith, f, same, text_eq→≡ key k same, get_entry-set_entry key k item entries)
    | inr other ↦ ground (arith, f, other, get_entry-set_entry key k item entries)
  ]
]

pub get_entry-kept :
    (key : Text) (configs : List VariableConfig) (entries : List Entry)
    → count_where (is_named key) configs ≡ 0
    → get_entry key (set_configs configs entries) ≡ get_entry key entries
get_entry-kept key [] entries n = refl
get_entry-kept key (c ∷ configs) entries n =
    get_entry-kept key configs (set_entry c.name c.value entries) (ground arith)
    ∙ ground (arith, get_entry-set_entry key c.name c.value entries)

pub get_entry-set_configs :
    (key : Text) (configs : List VariableConfig) (entries : List Entry) (config : VariableConfig)
    → find_first (is_named key) configs ≡ some config
    → count_where (is_named key) configs ≡ 1
    → get_entry key (set_configs configs entries) ≡ some config.value
get_entry-set_configs key [] entries config f n = ground arith
get_entry-set_configs key (c ∷ configs) entries config f n =
    elim (Bool-cases (text_eq key c.name)) [
      | inl t ↦
          get_entry-kept key configs (set_entry c.name c.value entries) (ground (arith, t))
          ∙ ground (arith, t, get_entry-set_entry key c.name c.value entries)
      | inr e ↦
          get_entry-set_configs key configs (set_entry c.name c.value entries) config
            (ground (arith, e)) (ground (arith, e))
    ]

pub has_value-get_entry :
    (key value : Text) (entries : List Entry)
    → get_entry key entries ≡ some value
    → has_value value (map (λ (e : Entry). e.item) entries) ≡ true
has_value-get_entry key value [] h = ground arith
has_value-get_entry key value (e ∷ entries) h =
    ground (arith, h, text_eq_refl value, has_value-get_entry key value entries)

has_value-unique_non_empty_from :
    (value : Text) (seen values : List Text)
    → is_empty value ≡ false
    → has_value value values ≡ true
    → (has_value value seen || has_value value (unique_non_empty_from seen values)) ≡ true
has_value-unique_non_empty_from value seen [] n h = ground arith
has_value-unique_non_empty_from value seen (x ∷ values) n h = elim (Bool-cases (text_eq value x)) [
  | inl e ↦ ground (arith, text_eq→≡ value x e, e, n)
  | inr e ↦
      let later : has_value value values ≡ true = ground (arith, e) in
      ground (
        arith,
        e,
        has_value-unique_non_empty_from value seen values n later,
        has_value-unique_non_empty_from value (x ∷ seen) values n later,
      )
]

pub has_value-unique_non_empty :
    (value : Text) (values : List Text)
    → is_empty value ≡ false
    → has_value value values ≡ true
    → has_value value (unique_non_empty values) ≡ true
unfolding unique_non_empty
has_value-unique_non_empty value values n h = has_value-unique_non_empty_from value [] values n h
