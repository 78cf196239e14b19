-- ===== src/Receive/Counters/Span.antt =====
-- The numbers of a span that have not arrived, by which the losses of transport/RtpReceiveState.cpp
-- are judged.
use symphony_media_bridge.Common.{
  ℕ, ◌-◌, ap, sym, ◌∙◌, suc, ◌+◌, ◌≤◌, ◌<◌, ◌≡◌, refl, List, ◌∷◌, if◌then◌else◌, ◌==◌, zero, false,
  ◌⊎◌, arith, Bool-cases, inl, inr,
}
use symphony_media_bridge.Common.Values.{is_in}

-- How many of the `n` numbers from `first` on have not arrived.
abbrev pub count_missing : ℕ → ℕ → List ℕ → ℕ
count_missing first zero seen = 0
count_missing first (suc n) seen =
    (if is_in first seen then 0 else 1) + count_missing (suc first) n seen

-- A number that is not among the `n` from `first` on changes nothing there.
missing_outside :
    (first n e : ℕ) (seen : List ℕ)
    → (e < first) ⊎ (first + n ≤ e)
    → count_missing first n (e ∷ seen) ≡ count_missing first n seen
missing_outside first zero e seen out = refl
missing_outside first (suc n) e seen out = ground (arith, out, missing_outside (suc first) n e seen)

-- One that is among them and is new makes one less missing.
pub missing_inside :
    (first n e : ℕ) (seen : List ℕ)
    → first ≤ e
    → e < first + n
    → is_in e seen ≡ false
    → suc (count_missing first n (e ∷ seen)) ≡ count_missing first n seen
missing_inside first zero e seen low high new = absurd (omega (arith, low, high))
missing_inside first (suc n) e seen low high new = elim (Bool-cases (e == first)) [
  | inl this ↦
      let same : e ≡ first = ground (arith, this) in
      let new' : is_in first seen ≡ false = ap (λ (x : ℕ). is_in x seen) (sym same) ∙ new in
      ground (arith, this, new', missing_outside (suc first) n e seen (inl (omega (arith, same))))
  | inr other ↦ ground (
    arith,
    other,
    missing_inside (suc first) n e seen (ground (arith, other, low)) (omega (arith, high)) new,
  )
]

missing_all :
    (first n : ℕ) (seen : List ℕ)
    → ((x : ℕ) → first ≤ x → is_in x seen ≡ false)
    → count_missing first n seen ≡ n
missing_all first zero seen none_there = refl
missing_all first (suc n) seen none_there = ground (
  arith,
  none_there first (omega arith),
  missing_all (suc first) n seen (λ (x : ℕ) (le : suc first ≤ x). none_there x (omega (arith, le))),
)

-- Numbers behind the newest one are all missing.
missing_beyond :
    (first n k : ℕ) (seen : List ℕ)
    → ((x : ℕ) → first + n ≤ x → is_in x seen ≡ false)
    → count_missing first (n + k) seen ≡ count_missing first n seen + k
missing_beyond first zero k seen none_beyond =
    let same : 0 + k ≡ k = omega arith in
    rw same
      (missing_all first k seen (λ (x : ℕ) (le : first ≤ x). none_beyond x (omega (arith, le))))
missing_beyond first (suc n) k seen none_beyond =
    let same : suc n + k ≡ suc (n + k) = omega arith in
    rw same (
      omega (
        arith,
        missing_beyond (suc first) n k seen
            (λ (x : ℕ) (le : suc first + n ≤ x). none_beyond x (omega (arith, le))),
      ))

pub missing_le : (first n : ℕ) (seen : List ℕ) → count_missing first n seen ≤ n
missing_le first zero seen = omega arith
missing_le first (suc n) seen = ground (arith, missing_le (suc first) n seen)

-- What a packet adds to the losses: those before it, or less one that it makes up for.
pub lost_ahead :
    (first last e : ℕ) (seen : List ℕ)
    → first ≤ last
    → last < e
    → ((x : ℕ) → last < x → is_in x seen ≡ false)
    → count_missing first (suc e - first) (e ∷ seen) + 1
      ≡ count_missing first (suc last - first) seen + (e - last)
lost_ahead first last e seen low ahead beyond =
    let width : suc last - first + (e - last) ≡ suc e - first = omega (arith, low, ahead) in
    let all =
      missing_beyond first (suc last - first) (e - last) seen
        (λ (x : ℕ) (le : first + (suc last - first) ≤ x). beyond x (omega (arith, le, low))) in
    let one =
      missing_inside first (suc e - first) e seen (omega (arith, low, ahead))
        (omega (arith, low, ahead)) (beyond e ahead) in
    let all' : count_missing first (suc e - first) seen
        ≡ count_missing first (suc last - first) seen + (e - last) =
      ap (λ (n : ℕ). count_missing first n seen) (sym width) ∙ all in
    omega (arith, one, all')
