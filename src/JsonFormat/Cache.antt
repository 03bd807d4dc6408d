-- ===== src/JsonFormat/Cache.antt =====
-- The cache never changes an answer, and when it stays within its limit.
use logdeck.Base.{
  suc, ◌+◌, ◌≤◌, ◌<◌, Bool, true, ◌≡◌, ◌⊎◌, refl, sym, ap, ◌∙◌, Option, none, some, List, [], ◌∷◌,
  leb, length, length-append, arith, Bool-cases, inl, inr, Option-cases, ===_refl,
}
use logdeck.Base.Text.{Text, text_Key, text_eq, text_eq_iff, truthy}
use logdeck.Base.JsMap.{get, set, delete, get-set, get-delete, set_new}
use logdeck.JsonFormat.{
  json_cache_limit, Formatted, JsonFormatCache, evict_oldest, set_cached_value, compute_format,
  format_json,
}

length-delete : (k : Text) (m : JsonFormatCache) → length (delete k m) ≤ length m
unfolding delete
length-delete k [] = omega arith
length-delete k ((j, v) ∷ m) = ground (arith, length-delete k m)

length-set :
    (k : Text) (v : Formatted) (m : JsonFormatCache)
    → get k m ≡ none
    → length (set k v m) ≡ length m + 1
length-set k v m h = ap length (set_new k v m h) ∙ length-append m ((k, v) ∷ [])

get-evict_oldest :
    (k : Text) (m : JsonFormatCache)
    → (get k (evict_oldest m) ≡ get k m) ⊎ (get k (evict_oldest m) ≡ none)
unfolding evict_oldest
get-evict_oldest k [] = inl refl
get-evict_oldest k ((oldest, v) ∷ m) = elim (Bool-cases (truthy oldest)) [
  | inr empty ↦ inl (rw empty refl)
  | inl there ↦ rw there (elim (Bool-cases (text_eq oldest k)) [
    | inl e ↦ inr (get-delete oldest k ((oldest, v) ∷ m) ∙ rw e refl)
    | inr e ↦ inl (get-delete oldest k ((oldest, v) ∷ m) ∙ rw e refl)
  ])
]

-- Deleting the first key shortens the map.
length-evict_oldest :
    (m : JsonFormatCache) → get [] m ≡ none → 0 < length m → length (evict_oldest m) + 1 ≤ length m
unfolding evict_oldest delete get
length-evict_oldest [] h n = absurd (omega arith)
length-evict_oldest (([], v) ∷ m) h n = cc
length-evict_oldest ((c ∷ oldest, v) ∷ m) h n =
    let same = ===_refl (c ∷ oldest) in rw same (omega (arith, length-delete (c ∷ oldest) m))

module _ {J : Type 0} (parse : Text → Option J) (is_object : J → Bool) (stringify : J → Text) where
  -- Every answer in the cache is the one that would be computed.
  abbrev pub IsFaithful : JsonFormatCache → Type 0
  IsFaithful m =
      (k : Text) (v : Formatted) → get k m ≡ some v → v ≡ compute_format parse is_object stringify k

  evict_oldest-IsFaithful : (m : JsonFormatCache) → IsFaithful m → IsFaithful (evict_oldest m)
  evict_oldest-IsFaithful m f k v h = elim (get-evict_oldest k m) [
    | inl e ↦ f k v (sym e ∙ h)
    | inr e ↦ cc
  ]

  set-IsFaithful :
      (text : Text) (m : JsonFormatCache)
      → IsFaithful m
      → IsFaithful (set text (compute_format parse is_object stringify text) m)
  set-IsFaithful text m f k v h = elim (Bool-cases (text_eq text k)) [
    | inl e ↦
        let same = (text_eq_iff text k).0 e in
        let g = sym (get-set text k (compute_format parse is_object stringify text) m) ∙ h in
        found (rw e at g) ∙ ap (compute_format parse is_object stringify) same
    | inr e ↦
        let g = sym (get-set text k (compute_format parse is_object stringify text) m) ∙ h in
        f k v (rw e at g)
  ]
    where
      found : {a b : Formatted} → some a ≡ some b → b ≡ a
      found q = cc

  set_cached_value-IsFaithful :
      (text : Text) (m : JsonFormatCache)
      → IsFaithful m
      → IsFaithful (set_cached_value text (compute_format parse is_object stringify text) m)
  unfolding set_cached_value
  set_cached_value-IsFaithful text m f = elim (Bool-cases (leb json_cache_limit (length m))) [
    | inl e ↦ rw e (set-IsFaithful text (evict_oldest m) (evict_oldest-IsFaithful m f))
    | inr e ↦ rw e (set-IsFaithful text m f)
  ]

  format_json-IsFaithful :
      (text : Text) (m : JsonFormatCache)
      → IsFaithful m
      → ((format_json parse is_object stringify text m).0
          ≡ compute_format parse is_object stringify text)
        × IsFaithful (format_json parse is_object stringify text m).1
  unfolding format_json
  format_json-IsFaithful text m f = elim (Option-cases (get text m)) [
    | inl e ↦ rw e (refl, set_cached_value-IsFaithful text m f)
    | inr (v, e) ↦ rw e (f text v e, f)
  ]

  -- Calls one after the other, on the module's one cache.
  abbrev pub format_all : List Text → JsonFormatCache → List Formatted × JsonFormatCache
  format_all [] m = ([], m)
  format_all (text ∷ texts) m =
      let (result, m') = format_json parse is_object stringify text m in
      let (results, m'') = format_all texts m' in (result ∷ results, m'')

  abbrev pub computed : List Text → List Formatted
  computed [] = []
  computed (text ∷ texts) = compute_format parse is_object stringify text ∷ computed texts

  -- From an empty cache, any sequence of calls gives what it would give without one.
  pub format_all-computed : (texts : List Text) → (format_all texts []).0 ≡ computed texts
  unfolding get
  format_all-computed texts = from texts [] (λ k v h. nothing_there k v h)
    where
      nothing_there :
          (k : Text) (v : Formatted)
          → get k [] ≡ some v
          → v ≡ compute_format parse is_object stringify k
      nothing_there k v h = cc

      from :
          (texts : List Text) (m : JsonFormatCache)
          → IsFaithful m
          → (format_all texts m).0 ≡ computed texts
      from [] m f = refl
      from (text ∷ texts) m f =
          let (e, f') = format_json-IsFaithful text m f in
          let rest = from texts (format_json parse is_object stringify text m).1 f' in cc (e, rest)

  -- A call with a text that is not empty keeps a cache without the empty text within its limit, and
  -- without that text.
  pub format_json-size :
      (text : Text) (m : JsonFormatCache)
      → truthy text ≡ true
      → get [] m ≡ none
      → length m ≤ json_cache_limit
      → let m' = (format_json parse is_object stringify text m).1 in
        (length m' ≤ json_cache_limit) × (get [] m' ≡ none)
  unfolding format_json set_cached_value
  format_json-size text m shown no_empty small = elim (Option-cases (get text m)) [
    | inr (v, e) ↦ rw e (small, no_empty)
    | inl e ↦ elim (Bool-cases (leb json_cache_limit (length m))) [
      | inr few ↦
          let room : length m + 1 ≤ json_cache_limit = ground arith in
          rw (e, few)
            (
              omega (
                arith,
                room,
                length-set text (compute_format parse is_object stringify text) m e,
              ),
              kept (compute_format parse is_object stringify text) text m shown no_empty,
            )
      | inl full ↦
          let nonempty : 0 < length m = ground arith in
          let gone = either (get-evict_oldest text m) e in
          let empty = either (get-evict_oldest [] m) no_empty in
          rw (e, full)
            (
              omega (
                arith,
                length-set text (compute_format parse is_object stringify text) (evict_oldest m)
                    gone,
                length-evict_oldest m no_empty nonempty,
              ),
              kept (compute_format parse is_object stringify text) text (evict_oldest m) shown
                  empty,
            )
    ]
  ]
    where
      either : {a b : Option Formatted} → (a ≡ b) ⊎ (a ≡ none) → b ≡ none → a ≡ none
      either (inl e) h = e ∙ h
      either (inr e) h = e

      kept :
          (v : Formatted) (text : Text) (m : JsonFormatCache)
          → truthy text ≡ true
          → get [] m ≡ none
          → get [] (set text v m) ≡ none
      kept v [] m shown h = cc
      kept v (c ∷ text) m shown h = get-set (c ∷ text) [] v m ∙ h

  -- With the empty text as its oldest key a full cache grows by one entry with every new text, and
  -- the empty text stays its oldest key.
  pub format_json-grows :
      (text : Text) (v : Formatted) (m : JsonFormatCache)
      → truthy text ≡ true
      → get text m ≡ none
      → json_cache_limit ≤ length m + 1
      → let m' = (format_json parse is_object stringify text (([], v) ∷ m)).1 in
        (length m' ≡ length m + 2) × ((rest : JsonFormatCache) × (m' ≡ ([], v) ∷ rest))
  unfolding format_json set_cached_value evict_oldest set get
  format_json-grows [] v m shown fresh full = cc
  format_json-grows (c ∷ text) v m shown fresh full =
      let limit : leb json_cache_limit (suc (length m)) ≡ true = ground arith in
      rw (fresh, limit)
        (
          omega (
            arith,
            length-set (c ∷ text) (compute_format parse is_object stringify (c ∷ text)) m fresh,
          ),
          (set (c ∷ text) (compute_format parse is_object stringify (c ∷ text)) m, refl),
        )
