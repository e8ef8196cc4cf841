-- ===== src/Keys/Toy.antt =====
-- A small instance of the parameters of the key model, with their laws, for concrete runs.
use kutu.Prelude.{
  ℕ, zero, suc, ◌+◌, ◌≡◌, ◌≢◌, refl, ap, Text, List, [], ◌∷◌, ◌++◌, Option, none, some, ◌==◌,
  eq_iff, eq_refl, if◌then◌else◌, length, take, drop, take-append, drop-append, Bool-cases, inl,
  inr, arith,
}
use kutu.Keys.{Primitives, PrimitiveLaws}
use kutu.Keys.Repository.{Secrets, UpstreamSecret}

abbrev pub zeros : ℕ → Text
zeros zero = []
zeros (suc n) = 0 ∷ zeros n

abbrev pub total : Text → ℕ
total [] = 0
total (c ∷ s) = c + total s

abbrev pub open_toy : Text → Text → Option Text
open_toy j [] = none
open_toy j (n ∷ c) = if take n c == j then some (drop n c) else none

abbrev pub toy : Primitives
toy = record {
  sha256 = λ s. total s ∷ zeros 31;
  aead_seal = λ k n m. length k ∷ (k ++ m);
  aead_open = λ j n c. open_toy j c;
  overhead = 1;
}

pub opens_own : (k m : Text) → open_toy k (length k ∷ (k ++ m)) ≡ some m
opens_own k m = rw (take-append k m, drop-append k m, eq_refl k) refl

pub opens_no_other : (j k m : Text) → j ≢ k → open_toy j (length k ∷ (k ++ m)) ≡ none
opens_no_other j k m d = elim (Bool-cases (k == j)) [
  | inl e ↦ absurd (d (cc ((eq_iff k j).0 e)))
  | inr e ↦ rw (take-append k m, e) refl
]

abbrev pub toy_laws : PrimitiveLaws toy
toy_laws = record {
  sha256_size = λ s. refl;
  seal_size = λ k n m. omega arith;
  open-seal = λ k n m. opens_own k m;
  open-seal_other = λ j k n m d. opens_no_other j k m d;
}

-- A text with its length before it.
abbrev field : Text → Text → Text
field t rest = length t ∷ (t ++ rest)

abbrev upstream_fields : UpstreamSecret → Text → Text
upstream_fields u rest = field u.password (field u.token (field u.value (field u.ssh_key rest)))

abbrev all_upstreams : List UpstreamSecret → Text
all_upstreams [] = []
all_upstreams (u ∷ us) = upstream_fields u (all_upstreams us)

abbrev pub marshal : Secrets → Text
marshal s = field s.signing_key (
    field s.replication_token (
      field s.password
        (field s.token (field s.value (length s.upstreams ∷ all_upstreams s.upstreams)))))

abbrev cut_field : Text → Text × Text
cut_field [] = ([], [])
cut_field (n ∷ c) = (take n c, drop n c)

abbrev read_upstreams : ℕ → Text → List UpstreamSecret
read_upstreams zero c = []
read_upstreams (suc n) c =
    let a = cut_field c in
    let b = cut_field a.1 in
    let d = cut_field b.1 in
    let e = cut_field d.1 in
    record { password = a.0; token = b.0; value = d.0; ssh_key = e.0 } ∷ read_upstreams n e.1

abbrev read_counted : Text → List UpstreamSecret
read_counted [] = []
read_counted (n ∷ c) = read_upstreams n c

abbrev pub unmarshal : Text → Secrets
unmarshal c =
    let a = cut_field c in
    let b = cut_field a.1 in
    let d = cut_field b.1 in
    let e = cut_field d.1 in
    let f = cut_field e.1 in
    record {
      signing_key = a.0;
      replication_token = b.0;
      password = d.0;
      token = e.0;
      value = f.0;
      upstreams = read_counted f.1;
    }

read_upstreams_all : (us : List UpstreamSecret) → read_upstreams (length us) (all_upstreams us) ≡ us
read_upstreams_all [] = refl
read_upstreams_all (u ∷ us) =
    simp (take-append, drop-append) (ap (λ z. u ∷ z) (read_upstreams_all us))

pub unmarshal-marshal : (s : Secrets) → unmarshal (marshal s) ≡ s
unmarshal-marshal s =
    simp (take-append, drop-append) (λ i. record s { upstreams = read_upstreams_all s.upstreams i })
