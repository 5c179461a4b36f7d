-- ===== src/XrayConfig/Tuning/Checked.antt =====
-- xray_config/tuning.py: what a profile that passed the checks carries.
use text.Mathlib.Text.{starts_with}
use v2pi.Base.{
  ℕ, ◌≡◌, ◌≤◌, ◌⊎◌, inl, inr, refl, subst, arith, true, false, String, str_eq, eq_iff, Option, none,
  some, List, [], ◌∷◌, Bool-cases, ◌==◌,
}
use v2pi.Base.Text.{pieces, pieces-single}
use v2pi.XrayConfig.Tuning.{
  TuningProfile, validate_profile, good_doh, good_numbers, bounded_number, bounded_parts,
  ascii_number, within,
}

validate_profile-parts :
    (p : TuningProfile) → validate_profile p ≡ true → (good_doh p ≡ true) × (good_numbers p ≡ true)
unfolding validate_profile
validate_profile-parts p h = ground arith

-- A number with no range is the number itself.
bounded_number-single :
    (value : String) (lo hi : ℕ)
    → bounded_number value lo hi false ≡ true
    → (k : ℕ) × ((ascii_number value ≡ some k) × (lo ≤ k) × (k ≤ hi))
unfolding bounded_number
bounded_number-single value lo hi h =
    turn (pieces (λ c. c == b'-') value) h (pieces-single (λ c. c == b'-') value)
  where
    number :
        (o : Option ℕ) → within lo hi o o ≡ true → (k : ℕ) × ((o ≡ some k) × (lo ≤ k) × (k ≤ hi))
    number none q = absurd (cc q)
    number (some k) q = (k, (refl, ground arith, ground arith))

    turn :
        (ps : List String)
        → bounded_parts lo hi false ps ≡ true
        → ((a : String) → ps ≡ a ∷ [] → a ≡ value)
        → (k : ℕ) × ((ascii_number value ≡ some k) × (lo ≤ k) × (k ≤ hi))
    turn [] q one = absurd (cc q)
    turn (a ∷ []) q one =
        number (ascii_number value)
          (subst (λ v. within lo hi (ascii_number v) (ascii_number v) ≡ true) (one a refl) q)
    turn (a ∷ b ∷ []) q one = absurd (cc q)
    turn (a ∷ b ∷ c ∷ ps) q one = absurd (cc q)

-- A profile that passed has no resolver of its own or one over https, and no number of connections for
-- the mux or one from 1 to 1024, written in ASCII digits.
pub validate_profile_sound :
    (p : TuningProfile)
    → validate_profile p ≡ true
    → ((p.doh_url ≡ "") ⊎ (starts_with p.doh_url "https://" ≡ true))
      × ((p.mux_concurrency ≡ "")
          ⊎ ((k : ℕ) × ((ascii_number p.mux_concurrency ≡ some k) × (1 ≤ k) × (k ≤ 1024))))
unfolding good_doh good_numbers
validate_profile_sound p h = let parts = validate_profile-parts p h in (doh parts.0, mux parts.1)
  where
    doh : good_doh p ≡ true → (p.doh_url ≡ "") ⊎ (starts_with p.doh_url "https://" ≡ true)
    doh q = elim (Bool-cases (str_eq p.doh_url "")) [
      | inl e ↦ inl ((eq_iff p.doh_url "").0 e)
      | inr e ↦ inr (ground arith)
    ]

    mux :
        good_numbers p ≡ true
        → (p.mux_concurrency ≡ "")
          ⊎ ((k : ℕ) × ((ascii_number p.mux_concurrency ≡ some k) × (1 ≤ k) × (k ≤ 1024)))
    mux q = elim (Bool-cases (str_eq p.mux_concurrency "")) [
      | inl e ↦ inl ((eq_iff p.mux_concurrency "").0 e)
      | inr e ↦ inr (bounded_number-single p.mux_concurrency 1 1024 (ground arith))
    ]
