-- ===== src/Proxy/Secret/Domain.antt =====
-- The domain of a FakeTLS secret: what `secretSNI` can give.
use mtproto_checker.Common.{
  All, Bool, Bool-cases, Bytes, [], ap, arith, drop, drop-append, false, if◌then◌else◌, inl, inr,
  leb, length, length-append, ltb, not, refl, true, ℕ, ◌++◌, ◌||◌, ◌∙◌, ◌∷◌, ◌≡◌, ◌≤◌, ◌⊎◌,
}
use mtproto_checker.Common.Text.{contains_byte, lower, to_lower, trim, trim_left, trim_right}
use mtproto_checker.Proxy.Secret.{
  default_sni, host_prefix, is_dot_or_dash, is_host_byte, secret_sni,
}

-- Text trimmed by `cut` at both ends stays as it is.
module _ (cut : ℕ → Bool) where
  trim_right_idem : (s : Bytes) → trim_right cut (trim_right cut s) ≡ trim_right cut s
  unfolding trim_right
  trim_right_idem [] = refl
  trim_right_idem (c ∷ s) = ground (arith, trim_right_idem s)

  trim_left-trim_right :
      (c : ℕ) (s : Bytes)
      → cut c ≡ false
      → trim_left cut (trim_right cut (c ∷ s)) ≡ trim_right cut (c ∷ s)
  unfolding trim_left trim_right
  trim_left-trim_right c s h = ground arith

  trim_left_cases :
      (s : Bytes)
      → (trim_left cut s ≡ [])
        ⊎ ((c : ℕ) × (r : Bytes) × (trim_left cut s ≡ c ∷ r) × (cut c ≡ false))
  unfolding trim_left
  trim_left_cases [] = inl refl
  trim_left_cases (c ∷ s) = elim (Bool-cases (cut c)) [
    | inl drops ↦ rw drops (trim_left_cases s)
    | inr stays ↦ rw stays (inr (c, s, refl, stays))
  ]

  pub trim_idem : (s : Bytes) → trim cut (trim cut s) ≡ trim cut s
  trim_idem s = elim (trim_left_cases s) [
    | inl e ↦ rw e (unfold trim_left trim_right in refl)
    | inr (c, r, e, stays) ↦ rw (e, trim_left-trim_right c r stays) (trim_right_idem (c ∷ r))
  ]

lower_idem : (c : ℕ) → lower (lower c) ≡ lower c
unfolding lower
lower_idem c = ground arith

is_dot_or_dash-lower : (c : ℕ) → is_dot_or_dash (lower c) ≡ is_dot_or_dash c
unfolding is_dot_or_dash lower
is_dot_or_dash-lower c = ground arith

is_host_byte-lower : (c : ℕ) → is_host_byte (lower c) ≡ is_host_byte c
unfolding is_host_byte lower
is_host_byte-lower c = ground arith

to_lower_idem : (s : Bytes) → to_lower (to_lower s) ≡ to_lower s
to_lower_idem [] = refl
to_lower_idem (c ∷ s) = cc (lower_idem c, to_lower_idem s)

trim_left-to_lower :
    (s : Bytes) → trim_left is_dot_or_dash (to_lower s) ≡ to_lower (trim_left is_dot_or_dash s)
unfolding trim_left
trim_left-to_lower [] = refl
trim_left-to_lower (c ∷ s) = ground (arith, is_dot_or_dash-lower c, trim_left-to_lower s)

trim_right-to_lower :
    (s : Bytes) → trim_right is_dot_or_dash (to_lower s) ≡ to_lower (trim_right is_dot_or_dash s)
unfolding trim_right
trim_right-to_lower [] = refl
trim_right-to_lower (c ∷ s) = ground (arith, is_dot_or_dash-lower c, trim_right-to_lower s)

trim-to_lower : (s : Bytes) → trim is_dot_or_dash (to_lower s) ≡ to_lower (trim is_dot_or_dash s)
trim-to_lower s =
    ap (trim_right is_dot_or_dash) (trim_left-to_lower s)
    ∙ trim_right-to_lower (trim_left is_dot_or_dash s)

-- A byte of a lower-case host name.
abbrev pub IsHost : ℕ → Type 0
IsHost c = (is_host_byte c ≡ true) × (lower c ≡ c)

host_prefix-All : (s : Bytes) → All (λ c. is_host_byte c ≡ true) (host_prefix s)
unfolding host_prefix
host_prefix-All [] = tt
host_prefix-All (c ∷ s) = elim (Bool-cases (is_host_byte c)) [
  | inl good ↦ rw good (good, host_prefix-All s)
  | inr bad ↦ rw bad tt
]

module _ {κ} (cut : ℕ → Bool) (P : ℕ → Type κ) where
  All-trim_left : (s : Bytes) → All P s → All P (trim_left cut s)
  unfolding trim_left
  All-trim_left [] h = tt
  All-trim_left (c ∷ s) (p, h) = elim (Bool-cases (cut c)) [
    | inl drops ↦ rw drops (All-trim_left s h)
    | inr stays ↦ rw stays (p, h)
  ]

  All-trim_right : (s : Bytes) → All P s → All P (trim_right cut s)
  unfolding trim_right
  All-trim_right [] h = tt
  All-trim_right (c ∷ s) (p, h) = step (trim_right cut s) (All-trim_right s h)
    where
      step :
          (r : Bytes)
          → All P r
          → All P (elim r [ [] ↦ if cut c then [] else c ∷ [] | x ∷ t ↦ c ∷ x ∷ t ])
      step [] hr = elim (Bool-cases (cut c)) [
        | inl drops ↦ rw drops tt
        | inr stays ↦ rw stays (p, tt)
      ]
      step (x ∷ t) hr = (p, hr)

to_lower-IsHost : (s : Bytes) → All (λ c. is_host_byte c ≡ true) s → All IsHost (to_lower s)
to_lower-IsHost [] h = tt
to_lower-IsHost (c ∷ s) (p, h) = ((is_host_byte-lower c ∙ p, lower_idem c), to_lower-IsHost s h)

-- A host name: lower-case host bytes, at least four, one of them a dot.
pub record IsDomain (s : Bytes) : Type 0 where
  pub host_bytes : All IsHost s
  pub long : 4 ≤ length s
  pub dotted : contains_byte b'.' s ≡ true

abbrev cleaned : Bytes → Bytes
cleaned secret = to_lower (trim is_dot_or_dash (host_prefix (drop 17 secret)))

cleaned-IsHost : (secret : Bytes) → All IsHost (cleaned secret)
cleaned-IsHost secret =
    let cut = is_dot_or_dash in
    let P = λ (c : ℕ). is_host_byte c ≡ true in
    let s = host_prefix (drop 17 secret) in
    to_lower-IsHost (trim cut s) (
      All-trim_right cut P (trim_left cut s)
        (All-trim_left cut P s (host_prefix-All (drop 17 secret))))

default_sni-IsDomain : IsDomain default_sni
unfolding is_host_byte lower contains_byte
default_sni-IsDomain = record { host_bytes = ground arith; long = omega arith; dotted = refl }

-- What `secretSNI` gives is a host name, and stays as it is when it is trimmed and lowered again.
sni_cases :
    (secret : Bytes)
    → (secret_sni secret ≡ default_sni)
      ⊎ ((secret_sni secret ≡ cleaned secret) × IsDomain (cleaned secret))
unfolding secret_sni
sni_cases secret = elim (Bool-cases (leb (length secret) 17)) [
  | inl short ↦ inl (rw short)
  | inr longer ↦
      let bad = not (contains_byte b'.' (cleaned secret)) || ltb (length (cleaned secret)) 4 in
      elim (Bool-cases bad) [
        | inl e ↦ inl (rw (longer, e))
        | inr e ↦ inr (
          rw (longer, e) refl,
          record { host_bytes = cleaned-IsHost secret; long = ground arith; dotted = ground arith },
        )
      ]
]

-- Whatever the secret, the domain is a host name: lower-case host bytes, at least four of them, with
-- a dot.
pub secret_sni-IsDomain : (secret : Bytes) → IsDomain (secret_sni secret)
secret_sni-IsDomain secret = elim (sni_cases secret) [
  | inl e ↦ rw e default_sni-IsDomain
  | inr (e, d) ↦ rw e d
]

host_prefix-host : (s : Bytes) → All IsHost s → host_prefix s ≡ s
unfolding host_prefix
host_prefix-host [] h = refl
host_prefix-host (c ∷ s) ((good, low), h) = ground (arith, host_prefix-host s h)

sni_of_stable :
    (mark : ℕ) (key d : Bytes)
    → length key ≡ 16
    → IsDomain d
    → to_lower (trim is_dot_or_dash d) ≡ d
    → secret_sni (mark ∷ (key ++ d)) ≡ d
unfolding secret_sni
sni_of_stable mark key d n h stable = ground (
  arith,
  length-append key d,
  drop-append key d 16 (omega arith),
  host_prefix-host d h.host_bytes,
  h.long,
  h.dotted,
  stable,
)

cleaned_stable : (secret : Bytes) → to_lower (trim is_dot_or_dash (cleaned secret)) ≡ cleaned secret
cleaned_stable secret =
    let s = host_prefix (drop 17 secret) in
    ap to_lower (trim-to_lower (trim is_dot_or_dash s))
    ∙ to_lower_idem (trim is_dot_or_dash (trim is_dot_or_dash s))
    ∙ ap to_lower (trim_idem is_dot_or_dash s)

default_stable : to_lower (trim is_dot_or_dash default_sni) ≡ default_sni
unfolding trim_left trim_right is_dot_or_dash lower
default_stable = refl

-- A secret of any mark and key that is written with the domain of another secret has that domain.
pub secret_sni-secret_sni :
    (mark : ℕ) (key secret : Bytes)
    → length key ≡ 16
    → secret_sni (mark ∷ (key ++ secret_sni secret)) ≡ secret_sni secret
secret_sni-secret_sni mark key secret n = elim (sni_cases secret) [
  | inl e ↦ rw e (sni_of_stable mark key default_sni n default_sni-IsDomain default_stable)
  | inr (e, d) ↦ rw e (sni_of_stable mark key (cleaned secret) n d (cleaned_stable secret))
]
