-- ===== src/Sdk/Rounds.antt =====
-- The loop of Acquire over the headers of a reply ends (packages/sdks/go/client.go).
use rate_cap.Prelude.{
  ℕ, zero, suc, true, false, Option, List, [], ◌∷◌, none, some, ◌+◌, ◌≤◌, ◌<◌, ◌≡◌, refl, ap, sym,
  subst, ◌∙◌, ◌&&◌, ◌==◌, leb, length, if◌then◌else◌, Bool-cases, Option-cases, inl, inr, arith,
}
use rate_cap.Limiter.{TokenReservation}
use rate_cap.Sidecar.Http.{HeaderName, named, indexed, HeaderValue}
use rate_cap.Sdk.{same_name, get_header, text_of, read_reservations, next_reservation}

-- The headers of tokens from the index i on.
token_from : ℕ → HeaderName → ℕ
token_from i (named a) = 0
token_from i (indexed a j) = if (a == "Concurrency-Token-") && leb i j then 1 else 0

tokens_from : ℕ → List (HeaderName × HeaderValue) → ℕ
tokens_from i [] = 0
tokens_from i ((n, v) ∷ hs) = token_from i n + tokens_from i hs

token_from_le_one : (i : ℕ) (n : HeaderName) → token_from i n ≤ 1
unfolding token_from
token_from_le_one i (named a) = omega arith
token_from_le_one i (indexed a j) = ground arith

tokens_from-le-length :
    (i : ℕ) (hs : List (HeaderName × HeaderValue)) → tokens_from i hs ≤ length hs
unfolding tokens_from
tokens_from-le-length i [] = omega arith
tokens_from-le-length i ((n, v) ∷ hs) =
    omega (arith, token_from_le_one i n, tokens_from-le-length i hs)

token_from_antitone : (i : ℕ) (n : HeaderName) → token_from (suc i) n ≤ token_from i n
unfolding token_from
token_from_antitone i (named a) = omega arith
token_from_antitone i (indexed a j) = ground arith

tokens_from_antitone :
    (i : ℕ) (hs : List (HeaderName × HeaderValue)) → tokens_from (suc i) hs ≤ tokens_from i hs
unfolding tokens_from
tokens_from_antitone i [] = omega arith
tokens_from_antitone i ((n, v) ∷ hs) =
    omega (arith, token_from_antitone i n, tokens_from_antitone i hs)

-- The header that a round reads is behind the next round.
token_from-own :
    (i : ℕ) (n : HeaderName)
    → same_name n (indexed "Concurrency-Token-" i) ≡ true
    → (token_from (suc i) n ≡ 0) × (token_from i n ≡ 1)
unfolding token_from
token_from-own i (named a) h = absurd (cc)
token_from-own i (indexed a j) h = (ground arith, ground arith)

tokens_from-lt :
    (i : ℕ) (hs : List (HeaderName × HeaderValue)) (v : HeaderValue)
    → get_header (indexed "Concurrency-Token-" i) hs ≡ some v
    → tokens_from (suc i) hs < tokens_from i hs
unfolding tokens_from get_header
tokens_from-lt i [] v h = absurd (ground arith)
tokens_from-lt i ((n, w) ∷ hs) v h =
    elim (Option-cases (get_header (indexed "Concurrency-Token-" i) hs)) [
      | inl e ↦
          let own : same_name n (indexed "Concurrency-Token-" i) ≡ true = ground arith in
          omega (arith, token_from-own i n own, tokens_from_antitone i hs)
      | inr (u, e) ↦ omega (arith, token_from_antitone i n, tokens_from-lt i hs u e)
    ]

text_of-some :
    (o : Option HeaderValue) → (text_of o == "") ≡ false → (v : HeaderValue) × (o ≡ some v)
text_of-some none h = absurd (cc)
text_of-some (some v) h = (v, refl)

abbrev Ended : ℕ → List (HeaderName × HeaderValue) → Type 0
Ended i hs = (text_of (get_header (indexed "Concurrency-Token-" i) hs) == "") ≡ true

-- A round that ends the loop, and one that goes on.
last_round :
    (fuel i : ℕ) (hs : List (HeaderName × HeaderValue))
    → Ended i hs
    → read_reservations (suc fuel) i hs ≡ []
unfolding read_reservations next_reservation
last_round fuel i hs e = rw e

abbrev reservation_at : ℕ → List (HeaderName × HeaderValue) → TokenReservation
reservation_at i hs = record {
  key = text_of (get_header (indexed "Concurrency-Key-" i) hs);
  token = text_of (get_header (indexed "Concurrency-Token-" i) hs);
}

next_round :
    (fuel i : ℕ) (hs : List (HeaderName × HeaderValue))
    → (text_of (get_header (indexed "Concurrency-Token-" i) hs) == "") ≡ false
    → read_reservations (suc fuel) i hs ≡ reservation_at i hs ∷ read_reservations fuel (suc i) hs
unfolding read_reservations next_reservation
next_round fuel i hs e = rw e

-- The rounds are enough from the index i on.
record Ends (fuel i : ℕ) (hs : List (HeaderName × HeaderValue)) : Type 0 where
  by_test : Ended (i + length (read_reservations fuel i hs)) hs
  steady : (more : ℕ) → read_reservations (fuel + more) i hs ≡ read_reservations fuel i hs

Ends-last : (fuel i : ℕ) (hs : List (HeaderName × HeaderValue)) → Ended i hs → Ends (suc fuel) i hs
Ends-last fuel i hs e = record {
  by_test =
      let at : i ≡ i + length (read_reservations (suc fuel) i hs) =
        omega (arith, ap (length {A = TokenReservation}) (last_round fuel i hs e)) in
      subst (λ j. Ended j hs) at e;
  steady = λ more.
      let next : suc fuel + more ≡ suc (fuel + more) = omega arith in
      ap (λ n. read_reservations n i hs) next
      ∙ last_round (fuel + more) i hs e
      ∙ sym (last_round fuel i hs e);
}

Ends-next :
    (fuel i : ℕ) (hs : List (HeaderName × HeaderValue))
    → (text_of (get_header (indexed "Concurrency-Token-" i) hs) == "") ≡ false
    → Ends fuel (suc i) hs
    → Ends (suc fuel) i hs
Ends-next fuel i hs e ih = record {
  by_test =
      let at : suc i + length (read_reservations fuel (suc i) hs)
          ≡ i + length (read_reservations (suc fuel) i hs) =
        omega (arith, ap (length {A = TokenReservation}) (next_round fuel i hs e)) in
      subst (λ j. Ended j hs) at ih.by_test;
  steady = λ more.
      let next : suc fuel + more ≡ suc (fuel + more) = omega arith in
      ap (λ n. read_reservations n i hs) next
      ∙ next_round (fuel + more) i hs e
      ∙ ap (λ rs. reservation_at i hs ∷ rs) (ih.steady more)
      ∙ sym (next_round fuel i hs e);
}

read_reservations-Ends :
    (fuel i : ℕ) (hs : List (HeaderName × HeaderValue)) → tokens_from i hs < fuel → Ends fuel i hs
read_reservations-Ends zero i hs h = absurd (omega arith)
read_reservations-Ends (suc fuel) i hs h =
    elim (Bool-cases (text_of (get_header (indexed "Concurrency-Token-" i) hs) == "")) [
      | inl e ↦ Ends-last fuel i hs e
      | inr e ↦
          let v = text_of-some (get_header (indexed "Concurrency-Token-" i) hs) e in
          Ends-next fuel i hs e
            (read_reservations-Ends fuel (suc i) hs (omega (arith, tokens_from-lt i hs v.0 v.1, h)))
    ]

-- Whatever headers a reply has, the loop ends by its own test, on a token that is missing or empty,
-- in at most one round more than there are headers: more rounds read the same.
pub read_reservations-ends :
    (hs : List (HeaderName × HeaderValue)) (more : ℕ)
    → let rs = read_reservations (suc (length hs)) 0 hs in
      ((text_of (get_header (indexed "Concurrency-Token-" (length rs)) hs) == "") ≡ true)
      × (read_reservations (suc (length hs) + more) 0 hs ≡ rs)
read_reservations-ends hs more =
    let rs = read_reservations (suc (length hs)) 0 hs in
    let ends =
      read_reservations-Ends (suc (length hs)) 0 hs (omega (arith, tokens_from-le-length 0 hs)) in
    let same : 0 + length rs ≡ length rs = omega arith in
    (subst (λ j. Ended j hs) same ends.by_test, ends.steady more)
