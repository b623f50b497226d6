-- ===== src/Net/Fetch/Chain.antt =====
-- src/netguard.rs, `follow_pinned_get`: every request of a chain is checked and the chain is bounded.
use mathlib.Core.List.{Memᴰ}
use zimi_rs.Base.{
  ℕ, zero, suc, ◌+◌, ◌≤◌, ◌≡◌, refl, subst, Option, List, [], ◌∷◌, arith, length, All, Text, Result,
  ok, err,
}
use zimi_rs.Net.Fetch.{
  Web, Pin, Error, Response, RedirectStep, final, follow, redirect_step, PinnedResponse, Sent,
  Outcome, max_redirect_hops, prepare, continue, inspect, exchange, follow_from, follow_pinned_get,
}
use zimi_rs.Net.Fetch.Host.{IsChecked, prepare-IsChecked}

response_ne :
    {e : Error} {res : PinnedResponse} → ◌≡◌ {A = Result PinnedResponse Error} (err e) (ok res) → ⊥
response_ne h = cc

response_injective :
    {a b : PinnedResponse} → ◌≡◌ {A = Result PinnedResponse Error} (ok a) (ok b) → a ≡ b
response_injective h = cc

module _ (web : Web) (pins : List Pin) where
  abbrev pub SentChecked : Sent → Type 0
  SentChecked s = IsChecked web (web.allow_private s.hop) pins s.url s.pin

  module _ (next : Text → Outcome) where
    inspect-All :
        (url : Text) (pin : Option Pin) (answer : Result Response Error)
        → ((target : Text) → All SentChecked (next target).1)
        → All SentChecked (inspect web pins next url pin answer).1
    inspect-All url pin (err e) rest = tt
    inspect-All url pin (ok r) rest = step (redirect_step web url r)
      where
        step : (s : RedirectStep) → All SentChecked (continue web pins next url pin r s).1
        step final = tt
        step (follow target) = rest target

    exchange-All :
        (n : ℕ) (url : Text) (prepared : Result (Option Pin) Error)
        → prepare web pins n url ≡ prepared
        → ((target : Text) → All SentChecked (next target).1)
        → All SentChecked (exchange web pins next n url prepared).1
    exchange-All n url (err e) h rest = tt
    exchange-All n url (ok pin) h rest =
        (prepare-IsChecked web pins n url pin h, inspect-All url pin (web.send n pin url) rest)

    inspect-length :
        (url : Text) (pin : Option Pin) (answer : Result Response Error) (k : ℕ)
        → ((target : Text) → length (next target).1 ≤ k)
        → length (inspect web pins next url pin answer).1 ≤ k
    inspect-length url pin (err e) k rest = omega arith
    inspect-length url pin (ok r) k rest = step (redirect_step web url r)
      where
        step : (s : RedirectStep) → length (continue web pins next url pin r s).1 ≤ k
        step final = omega arith
        step (follow target) = rest target

    exchange-length :
        (n : ℕ) (url : Text) (prepared : Result (Option Pin) Error) (k : ℕ)
        → ((target : Text) → length (next target).1 ≤ k)
        → length (exchange web pins next n url prepared).1 ≤ suc k
    exchange-length n url (err e) k rest = omega arith
    exchange-length n url (ok pin) k rest =
        omega (arith, inspect-length url pin (web.send n pin url) k rest)

  follow_from-All : (left n : ℕ) (url : Text) → All SentChecked (follow_from web pins left n url).1
  unfolding follow_from
  follow_from-All zero n url = exchange-All _ n url (prepare web pins n url) refl (λ target. tt)
  follow_from-All (suc left) n url =
      exchange-All _ n url (prepare web pins n url) refl (follow_from-All left (suc n))

  follow_from-length :
      (left n : ℕ) (url : Text) → length (follow_from web pins left n url).1 ≤ suc left
  unfolding follow_from
  follow_from-length zero n url =
      exchange-length _ n url (prepare web pins n url) 0 (λ target. omega arith)
  follow_from-length (suc left) n url =
      exchange-length _ n url (prepare web pins n url) (suc left) (follow_from-length left (suc n))

  -- Whatever the servers answer, a chain sends no request that has not passed the checks of its hop:
  -- an http(s) URL whose host is not `localhost`, and a connection that can only reach an address
  -- that is allowed or that the caller handed in.
  pub follow_pinned_get-All : (url : Text) → All SentChecked (follow_pinned_get web pins url).1
  unfolding follow_pinned_get
  follow_pinned_get-All url = follow_from-All max_redirect_hops 0 url

  -- And it sends at most six requests.
  pub follow_pinned_get-length :
      (url : Text) → length (follow_pinned_get web pins url).1 ≤ 1 + max_redirect_hops
  unfolding follow_pinned_get
  follow_pinned_get-length url = omega (arith, follow_from-length max_redirect_hops 0 url)

  -- The response that the chain returns: a request of the chain got it, and it redirects no further.
  pub record IsAnswered (sent : List Sent) (res : PinnedResponse) : Type 0 where
    pub hop : ℕ
    pub listed : Memᴰ (record { hop = hop; url = res.url; pin = res.client }) sent
    pub answer : web.send hop res.client res.url ≡ ok res.response
    pub terminal : redirect_step web res.url res.response ≡ final

  module _ (next : Text → Outcome)
      (rest : (target : Text) (res : PinnedResponse)
        → (next target).0 ≡ ok res
        → IsAnswered (next target).1 res) where
    later :
        {s : Sent} {sent : List Sent} {res : PinnedResponse}
        → IsAnswered sent res
        → IsAnswered (s ∷ sent) res
    later a = record {
      hop = a.hop;
      listed = Memᴰ.tail a.listed;
      answer = a.answer;
      terminal = a.terminal;
    }

    continue-IsAnswered :
        (n : ℕ) (url : Text) (pin : Option Pin) (r : Response) (step : RedirectStep)
        (res : PinnedResponse)
        → web.send n pin url ≡ ok r
        → redirect_step web url r ≡ step
        → (continue web pins next url pin r step).0 ≡ ok res
        → IsAnswered
            (record { hop = n; url = url; pin = pin } ∷ (continue web pins next url pin r step).1)
            res
    continue-IsAnswered n url pin r final res sent terminal h =
        subst (IsAnswered (record { hop = n; url = url; pin = pin } ∷ [])) (response_injective h)
          (record { hop = n; listed = Memᴰ.head refl; answer = sent; terminal = terminal })
    continue-IsAnswered n url pin r (follow target) res sent terminal h = later (rest target res h)

    exchange-IsAnswered :
        (n : ℕ) (url : Text) (prepared : Result (Option Pin) Error) (res : PinnedResponse)
        → (exchange web pins next n url prepared).0 ≡ ok res
        → IsAnswered (exchange web pins next n url prepared).1 res
    exchange-IsAnswered n url (err e) res h = absurd (response_ne h)
    exchange-IsAnswered n url (ok pin) res h = answered (web.send n pin url) refl h
      where
        answered :
            (a : Result Response Error)
            → web.send n pin url ≡ a
            → (inspect web pins next url pin a).0 ≡ ok res
            → IsAnswered
                (record { hop = n; url = url; pin = pin } ∷ (inspect web pins next url pin a).1)
                res
        answered (err e) sent k = absurd (response_ne k)
        answered (ok r) sent k =
            continue-IsAnswered n url pin r (redirect_step web url r) res sent refl k

  follow_from-IsAnswered :
      (left n : ℕ) (url : Text) (res : PinnedResponse)
      → (follow_from web pins left n url).0 ≡ ok res
      → IsAnswered (follow_from web pins left n url).1 res
  unfolding follow_from
  follow_from-IsAnswered zero n url res h =
      exchange-IsAnswered _ (λ target r k. absurd (response_ne k)) n url (prepare web pins n url)
        res h
  follow_from-IsAnswered (suc left) n url res h =
      exchange-IsAnswered _ (follow_from-IsAnswered left (suc n)) n url (prepare web pins n url) res
        h

  -- A response that the chain returns is the answer to a request of the chain, sent to the URL and
  -- over the pinned client that are returned with it, and it redirects no further.
  pub follow_pinned_get-IsAnswered :
      (url : Text) (res : PinnedResponse)
      → (follow_pinned_get web pins url).0 ≡ ok res
      → IsAnswered (follow_pinned_get web pins url).1 res
  unfolding follow_pinned_get
  follow_pinned_get-IsAnswered url res h = follow_from-IsAnswered max_redirect_hops 0 url res h
