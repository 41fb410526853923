-- ===== src/Server/Sync/Parsed.antt =====
-- `PeerSpec::parse`, against the text that it reads.
use msgbus.Prelude.{
  ℕ, ◌≡◌, refl, ap, false, Option, none, some, [], ◌∷◌, ◌++◌, ◌==◌, ◌⊎◌, inl, inr, Bool-cases,
  Option-cases, arith, subst,
}
use msgbus.Text.{Str, contains, is_empty, trim}
use msgbus.Core.Error.{ok, >>=-eq-ok, ok_injective}
use msgbus.Core.Node.{NodeId, key, from_key}
use msgbus.Core.Node.Keys.{IsValid, IsSlashFree, key-from_key}
use msgbus.Server.Sync.{PeerSpec, rsplit_once, parse_parts, peer_spec_parse}

-- what the split at the last occurrence says of the text
unfoldable IsSplit : ℕ → Str → Option (Str × Str) → Type 0
IsSplit c s none = contains s c ≡ false
IsSplit c s (some (before, after)) = (s ≡ before ++ c ∷ after) × (contains after c ≡ false)

rsplit_once-IsSplit : (c : ℕ) (s : Str) → IsSplit c s (rsplit_once c s)
unfolding IsSplit rsplit_once contains
rsplit_once-IsSplit c [] = refl
rsplit_once-IsSplit c (x ∷ s) = elim (Option-cases (rsplit_once c s)) [
  | inr ((before, after), found) ↦
      let (same, free) = subst (IsSplit c s) found (rsplit_once-IsSplit c s) in
      rw (found, rsplit_once) (ap (λ t. x ∷ t) same, free)
  | inl missing ↦
      let free : contains s c ≡ false = subst (IsSplit c s) missing (rsplit_once-IsSplit c s) in
      elim (Bool-cases (x == c)) [
        | inl here ↦
            let same : x ≡ c = ground arith in
            rw (missing, rsplit_once, here) (ap (λ y. y ∷ s) same, free)
        | inr other ↦
            let both : contains (x ∷ s) c ≡ false = ground arith in
            rw (missing, rsplit_once, other) both
      ]
]

-- what a peer says of its text
unfoldable pub IsSpec : Str → PeerSpec → Type 0
IsSpec value p =
    ((contains value b'=' ≡ false) × (p.endpoint ≡ value) × (p.expected_node ≡ none))
    ⊎ ((n : NodeId) × (p.expected_node ≡ some n)
        × (value ≡ p.endpoint ++ b'=' ∷ key n)
        × (contains (key n) b'=' ≡ false)
        × (is_empty (trim p.endpoint) ≡ false)
        × IsValid n
        × IsSlashFree n)

parse_parts-IsSpec :
    (value : Str) (parts : Option (Str × Str)) {p : PeerSpec}
    → IsSplit b'=' value parts
    → parse_parts value parts ≡ ok p
    → IsSpec value p
unfolding IsSplit parse_parts IsSpec
parse_parts-IsSpec value none free h =
    subst (IsSpec value) (ok_injective h) (inl (free, refl, refl))
parse_parts-IsSpec value (some (endpoint, node_key)) (same, free) h =
    elim (Bool-cases (is_empty (trim endpoint))) [
      | inl blank ↦ absurd (cc (rw (blank, parse_parts) at h))
      | inr filled ↦
          let (n, read, last) = >>=-eq-ok (from_key node_key) _ (rw (filled, parse_parts) at h) in
          let (keyed, valid, slash_free) = key-from_key node_key read in
          subst (IsSpec value) (ok_injective last)
            (inr (n, refl, rw keyed same, rw keyed free, filled, valid, slash_free))
    ]

-- A peer that `PeerSpec::parse` accepts either has no `=` in its text, which is the endpoint then, and
-- expects no identity; or its text is an endpoint that is not blank, `=` and the key of the node that
-- it expects, cut at the last `=`, and this node is valid with no slash in its parts.
pub peer_spec_parse-IsSpec :
    (value : Str) {p : PeerSpec} → peer_spec_parse value ≡ ok p → IsSpec value p
unfolding peer_spec_parse
peer_spec_parse-IsSpec value h = elim (Bool-cases (is_empty (trim value))) [
  | inl blank ↦ absurd (cc (rw (blank, peer_spec_parse) at h))
  | inr filled ↦
      parse_parts-IsSpec value (rsplit_once b'=' value) (rsplit_once-IsSplit b'=' value)
        (rw (filled, peer_spec_parse) at h)
]
