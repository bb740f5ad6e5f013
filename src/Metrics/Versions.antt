-- ===== src/Metrics/Versions.antt =====
-- At most one version of the configuration is shown (services/core/metrics/metrics.go).
use rate_cap.Prelude.{
  String, false, List, [], ◌∷◌, none, some, not, ◌&&◌, ◌==◌, eq_iff, ◌≡◌, ◌∙◌, refl, ap,
  if◌then◌else◌, inl, inr, Bool-cases, All, arith,
}
use rate_cap.Prelude.Int.{pos}
use rate_cap.Metrics.{GaugeVec, GaugeLaws, Version, record_config_version}

-- The last of some hashes.
abbrev pub last_of : String → List String → String
last_of hash [] = hash
last_of hash (x ∷ hashes) = last_of x hashes

last_of-nonempty :
    (hash : String) (hashes : List String)
    → All (λ x. (x == "") ≡ false) (hash ∷ hashes)
    → (last_of hash hashes == "") ≡ false
last_of-nonempty hash [] n = n.0
last_of-nonempty hash (x ∷ hashes) n = last_of-nonempty x hashes n.1

module _ (g : GaugeVec) where
  -- The versions that are recorded one after the other.
  abbrev pub after_all : List String → Version g → Version g
  after_all [] v = v
  after_all (hash ∷ hashes) v = after_all hashes (record_config_version hash v)

  -- The one series is that of the current hash, and there is none before the first.
  abbrev pub Shows : Version g → Type 0
  Shows v =
      (k : String)
      → g.series v.config_version_info k ≡ (
          if v.current_config_hash == ""
          then none
          else (if v.current_config_hash == k then some (pos 1) else none))

module _ (g : GaugeVec) (laws : GaugeLaws g) where
  open laws use {series-delete, series-set}

  -- What is left of a series other than that of the new hash.
  old_series :
      (hash k : String) (v : Version g)
      → (hash == k) ≡ false
      → Shows g v
      → g.series
          (if not (v.current_config_hash == "") && not (v.current_config_hash == hash)
            then g.delete_label_values v.current_config_hash v.config_version_info
            else v.config_version_info)
          k
        ≡ none
  old_series hash k v e h = elim (Bool-cases (v.current_config_hash == hash)) [
    | inl same ↦ ground (
      arith,
      h k,
      e,
      ap (λ x. x == k) ((eq_iff v.current_config_hash hash).0 same),
      series-delete v.current_config_hash k v.config_version_info,
    )
    | inr other ↦
        ground (arith, h k, other, series-delete v.current_config_hash k v.config_version_info)
  ]

  record_config_version-Shows :
      (hash : String) (v : Version g)
      → (hash == "") ≡ false
      → Shows g v
      → Shows g (record_config_version hash v)
  unfolding record_config_version
  record_config_version-Shows hash v n h k = elim (Bool-cases (hash == k)) [
    | inl e ↦ rw (n, series-set, e) refl
    | inr e ↦ rw (n, series-set, e) (old_series hash k v e h)
  ]

  after_all-Shows :
      (hashes : List String) (v : Version g)
      → All (λ hash. (hash == "") ≡ false) hashes
      → Shows g v
      → Shows g (after_all g hashes v)
  after_all-Shows [] v n h = h
  after_all-Shows (hash ∷ hashes) v n h =
      after_all-Shows hashes (record_config_version hash v) n.1
        (record_config_version-Shows hash v n.0 h)

  after_all-current :
      (hashes : List String) (v : Version g)
      → (after_all g hashes v).current_config_hash ≡ last_of v.current_config_hash hashes
  unfolding record_config_version
  after_all-current [] v = refl
  after_all-current (hash ∷ hashes) v = after_all-current hashes (record_config_version hash v)

  -- Whatever hashes are recorded one after the other, at least one and none of them empty, the only
  -- series afterwards is that of the last of them, with the value 1, if the only series before was
  -- that of the current hash.
  pub series-after_all :
      (hash : String) (hashes : List String) (v : Version g) (k : String)
      → All (λ x. (x == "") ≡ false) (hash ∷ hashes)
      → Shows g v
      → g.series (after_all g (hash ∷ hashes) v).config_version_info k
        ≡ (if last_of hash hashes == k then some (pos 1) else none)
  series-after_all hash hashes v k n h =
      let w = after_all g (hash ∷ hashes) v in
      let last : w.current_config_hash ≡ last_of hash hashes =
        after_all-current (hash ∷ hashes) v in
      after_all-Shows (hash ∷ hashes) v n h k
      ∙ ap (λ x. if x == "" then none else (if x == k then some (pos 1) else none)) last
      ∙ rw (last_of-nonempty hash hashes n) refl
