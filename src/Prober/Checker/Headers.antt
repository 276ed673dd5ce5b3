-- ===== src/Prober/Checker/Headers.antt =====
-- The headers and the path of a request.
use Prim.Native.String.{◌++◌}
use text.Mathlib.TextFind.{begins_cases}
use hotswap_operator.Prelude.{
  String, true, not, ◌&&◌, ◌≡◌, ◌≢◌, ◌⊎◌, refl, sym, ap, ◌∙◌, Option, none, some, [], ◌∷◌, str_eq,
  str_eq_iff, str_eq_refl, if◌then◌else◌, arith, Bool-cases, inl, inr,
}
use hotswap_operator.Prelude.Dict.{Dict, lookup, insert, IsUnique, lookup-insert}
use hotswap_operator.Prober.Checker.{HttpLibrary, has_slash, rooted, set_headers}

slash_rest : (path : String) → has_slash path ≡ true → (rest : String) × (path ≡ "/" ++ rest)
slash_rest path h = elim (begins_cases path "/" 1 0) [
  | inl (one, begun) ↦ (begun.0, sym begun.1)
  | inr miss ↦ absurd (ground (arith, miss, h))
]

-- A path of the URL is empty or begins with a slash.
abbrev pub IsRooted : String → Type 0
IsRooted path = (path ≡ "") ⊎ ((rest : String) × (path ≡ "/" ++ rest))

pub rooted-IsRooted : (path : String) → IsRooted (rooted path)
unfolding rooted
rooted-IsRooted path = elim (Bool-cases (str_eq path "")) [
  | inl empty ↦ inl (rw empty ((str_eq_iff path "").0 empty))
  | inr set ↦ elim (Bool-cases (has_slash path)) [
    | inl slash ↦ let (rest, e) = slash_rest path slash in inr (rest, rw (set, slash) e)
    | inr bare ↦ inr (path, rw (set, bare) refl)
  ]
]

-- A slash is all that is added to a path.
pub rooted_same : (path : String) → (rooted path ≡ path) ⊎ (rooted path ≡ "/" ++ path)
unfolding rooted
rooted_same path = elim (Bool-cases (not (str_eq path "") && not (has_slash path))) [
  | inl bare ↦ inr (rw bare refl)
  | inr rooted_already ↦ inl (rw rooted_already refl)
]

apart_keys :
    (i j : String) (es : Dict String) {x : String}
    → lookup i es ≡ none
    → lookup j es ≡ some x
    → i ≡ j
    → ⊥
apart_keys i j es n h e = cc

-- What stands in the rest of a map stands in the map.
lookup_later :
    (i j w x : String) (es : Dict String)
    → lookup i es ≡ none
    → lookup j es ≡ some x
    → lookup j ((i, w) ∷ es) ≡ some x
unfolding lookup
lookup_later i j w x es n h = ground (arith, str_eq_iff i j, apart_keys i j es n h, h)

lookup_head : (i w : String) (es : Dict String) → lookup i ((i, w) ∷ es) ≡ some w
unfolding lookup
lookup_head i w es = ground (arith, str_eq_refl i)

head_value :
    (i k w v : String) (rest : Option String)
    → str_eq i k ≡ true
    → (if str_eq i k then some w else rest) ≡ some v
    → w ≡ v
head_value i k w v rest e h = ground arith

module _ (http : HttpLibrary) where
  set_headers_absent :
      (key : String) (es set : Dict String)
      → IsUnique es
      → ((j w : String) → lookup j es ≡ some w → http.canonical_key j ≢ key)
      → lookup key (set_headers http set es) ≡ lookup key set
  unfolding set_headers
  set_headers_absent key [] set u away = refl
  set_headers_absent key ((i, w) ∷ es) set u away =
      let now : lookup key (insert (http.canonical_key i) w set) ≡ lookup key set = ground (
        arith,
        lookup-insert (http.canonical_key i) key w set,
        str_eq_iff (http.canonical_key i) key,
        away i w (lookup_head i w es),
      ) in
      set_headers_absent key es (insert (http.canonical_key i) w set) u.1
        (λ j x h. away j x (lookup_later i j w x es u.0 h))
      ∙ now

  -- A header whose key no other header has is set to its value.
  pub set_headers_found :
      (k v : String) (es set : Dict String)
      → IsUnique es
      → lookup k es ≡ some v
      → ((j w : String)
          → lookup j es ≡ some w
          → http.canonical_key j ≡ http.canonical_key k
          → j ≡ k)
      → lookup (http.canonical_key k) (set_headers http set es) ≡ some v
  unfolding set_headers
  set_headers_found k v [] set u found apart = absurd (unfold lookup in cc)
  set_headers_found k v ((i, w) ∷ es) set u found apart = elim (Bool-cases (str_eq i k)) [
    | inl same ↦
        let ik : i ≡ k = (str_eq_iff i k).0 same in
        let value : w ≡ v = head_value i k w v (lookup k es) same (unfold lookup in found) in
        let key = http.canonical_key k in
        set_headers_absent key es (insert (http.canonical_key i) w set) u.1 (λ j x h e.
          apart_keys i j es u.0 h (ik ∙ sym (apart j x (lookup_later i j w x es u.0 h) e)))
        ∙ ground (
          arith,
          lookup-insert (http.canonical_key i) key w set,
          ap http.canonical_key ik,
          str_eq_iff (http.canonical_key i) key,
          value,
        )
    | inr other ↦
        set_headers_found k v es (insert (http.canonical_key i) w set) u.1
          (unfold lookup in ground (arith, other, found))
          (λ j x h. apart j x (lookup_later i j w x es u.0 h))
  ]
