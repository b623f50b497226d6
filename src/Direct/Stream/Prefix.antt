-- ===== src/Direct/Stream/Prefix.antt =====
-- src/torrent/poller/direct.rs: what the loop over a body writes.
use zimi_rs.Base.{
  ℕ, zero, suc, ◌+◌, ◌≤◌, ◌<◌, ◌^◌, ◌≡◌, refl, sym, ap, ◌∙◌, ◌⊎◌, inl, inr, Bool, true, false,
  Option, none, some, List, [], ◌∷◌, ◌++◌, length, length-append, ltb, wrap64, take, arith, Result,
  ok, err, Bool-cases,
}
use mathlib.Core.List.{append_assoc, append-nil}
use zimi_rs.Downloads.Status.{DownloadStatus}
use zimi_rs.Direct.Stream.{
  Bytes, Chunk, Streamed, exhausted, stopped, failed, io, marked, exceeds_limit, Failure,
  saturating_add, stream_loop, after_chunk, after_progress, after_check,
}

-- A true prefix, with what is missing.
abbrev pub IsPrefix : Bytes → Bytes → Type 0
IsPrefix xs ys = (rest : Bytes) × (xs ++ rest ≡ ys)

pub IsPrefix-nil : (ys : Bytes) → IsPrefix [] ys
IsPrefix-nil ys = (ys, refl)

pub IsPrefix-self : (xs : Bytes) → IsPrefix xs xs
IsPrefix-self xs = ([], append-nil xs)

pub IsPrefix-trans : (xs ys zs : Bytes) → IsPrefix xs ys → IsPrefix ys zs → IsPrefix xs zs
IsPrefix-trans xs ys zs (r, e) (s, f) = (r ++ s, sym (append_assoc xs r s) ∙ ap (λ l. l ++ s) e ∙ f)

pub IsPrefix-append : (start xs ys : Bytes) → IsPrefix xs ys → IsPrefix (start ++ xs) (start ++ ys)
IsPrefix-append start xs ys (r, e) = (r, append_assoc start xs r ∙ ap (λ l. start ++ l) e)

take-IsPrefix : (n : ℕ) (xs : Bytes) → IsPrefix (take n xs) xs
take-IsPrefix zero xs = (xs, refl)
take-IsPrefix (suc n) [] = ([], refl)
take-IsPrefix (suc n) (x ∷ xs) = let (rest, e) = take-IsPrefix n xs in (rest, ap (λ l. x ∷ l) e)

-- What has left the buffer when the stream is cut.
pub cut-IsPrefix :
    (n : ℕ) (start written body : Bytes)
    → IsPrefix (start ++ written) body
    → IsPrefix (start ++ take n written) body
cut-IsPrefix n start written body h =
    IsPrefix-trans (start ++ take n written) (start ++ written) body
      (IsPrefix-append start (take n written) written (take-IsPrefix n written)) h

no_rest : (rest : Bytes) → length rest ≡ 0 → rest ≡ []
no_rest [] h = refl
no_rest (x ∷ xs) h = absurd (omega arith)

-- A prefix that is as long is the whole.
pub IsPrefix-length : (xs ys : Bytes) → IsPrefix xs ys → length xs ≡ length ys → xs ≡ ys
IsPrefix-length xs ys (rest, e) h =
    let nothing : rest ≡ [] = no_rest rest (omega (arith, length-append xs rest, ap length e)) in
    sym (append-nil xs) ∙ ap (λ r. xs ++ r) (sym nothing) ∙ e

-- The bytes that a connection gives until it fails.
abbrev pub payload_of : Result Bytes (Unit {0}) → Bytes → Bytes
payload_of (err e) rest = []
payload_of (ok bytes) rest = bytes ++ rest

unfoldable pub payload : List Chunk → Bytes
payload [] = []
payload (c ∷ cs) = payload_of c.bytes (payload cs)

-- The rule for one chunk: what holds however the loop ends there, and where it goes on.
module _ (P : Streamed → Type 0) (next : ℕ → Bytes → Streamed) where
  after_check-rule :
      (received : ℕ) (written : Bytes) (o : Option DownloadStatus)
      → ((s : DownloadStatus) → P (received, written, stopped s))
      → P (next received written)
      → P (after_check next received written o)
  after_check-rule received written none ends goes = goes
  after_check-rule received written (some status) ends goes = ends status

  after_progress-rule :
      (received : ℕ) (written : Bytes) (c : Chunk) (o : Option Bool)
      → P (received, written, failed io)
      → ((s : DownloadStatus) → P (received, written, stopped s))
      → P (next received written)
      → P (after_progress next received written c o)
  after_progress-rule received written c none fails ends goes =
      after_check-rule received written c.observed ends goes
  after_progress-rule received written c (some true) fails ends goes =
      after_check-rule received written c.observed ends goes
  after_progress-rule received written c (some false) fails ends goes = fails

  after_chunk-rule :
      (max_bytes received : ℕ) (written : Bytes) (c : Chunk) (b : Result Bytes (Unit {0}))
      → ((f : Failure) → P (received, written, failed f))
      → ((bytes : Bytes)
          → b ≡ ok bytes
          → received + length bytes ≤ max_bytes
          → ((r : ℕ) → P (r, written ++ bytes, failed io))
            × ((s : DownloadStatus) → P (received + length bytes, written ++ bytes, stopped s))
            × P (next (received + length bytes) (written ++ bytes)))
      → max_bytes + 1 < 2 ^ 64
      → P (after_chunk next max_bytes received written c b)
  after_chunk-rule max_bytes received written c (err e) fails goes small = fails io
  after_chunk-rule max_bytes received written c (ok bytes) fails goes small =
      elim (Bool-cases (ltb max_bytes (saturating_add received (length bytes)))) [
        | inl over ↦ rw over (fails (marked exceeds_limit))
        | inr below ↦
            let fits : received + length bytes ≤ max_bytes = ground arith in
            let exact : wrap64 (received + length bytes) ≡ received + length bytes = omega arith in
            let (unwritten, ends, goes_on) = goes bytes refl fits in
            elim (Bool-cases c.writes) [
              | inl writes ↦
                  rw (below, writes, exact)
                    (after_progress-rule (received + length bytes) (written ++ bytes) c c.progress
                      (unwritten (received + length bytes)) ends goes_on)
              | inr stuck ↦ rw (below, stuck) (unwritten received)
            ]
      ]

-- The count of received bytes is that of the bytes written, on every end but a failure.
abbrev pub Counted : ℕ → Bytes → Streamed → Type 0
Counted received written (received', written', failed f) = Unit
Counted received written (received', written', exhausted) =
    received' + length written ≡ received + length written'
Counted received written (received', written', stopped status) =
    received' + length written ≡ received + length written'

Counted-next :
    (received : ℕ) (written bytes : Bytes) (s : Streamed)
    → Counted (received + length bytes) (written ++ bytes) s
    → Counted received written s
Counted-next received written bytes (r, w, failed f) h = tt
Counted-next received written bytes (r, w, exhausted) h = omega (arith, length-append written bytes)
Counted-next received written bytes (r, w, stopped status) h =
    omega (arith, length-append written bytes)

module _ (max_bytes : ℕ) (small : max_bytes + 1 < 2 ^ 64) where
  -- The loop writes what the connection gives, from its beginning and in its order.
  pub stream_loop-IsPrefix :
      (cs : List Chunk) (received : ℕ) (written : Bytes)
      → IsPrefix (stream_loop max_bytes cs received written).1 (written ++ payload cs)
  unfolding stream_loop payload
  stream_loop-IsPrefix [] received written = ([], refl)
  stream_loop-IsPrefix (c ∷ cs) received written =
      after_chunk-rule (λ s. IsPrefix s.1 (written ++ payload_of c.bytes (payload cs)))
        (λ r w. stream_loop max_bytes cs r w) max_bytes received written c c.bytes
        (λ f. (payload_of c.bytes (payload cs), refl))
        (λ bytes given fits.
          let here : IsPrefix (written ++ bytes) (written ++ payload_of c.bytes (payload cs)) =
            (payload cs, rw given (append_assoc written bytes (payload cs))) in
          (
            λ r. here,
            λ e. here,
            rw (given, sym (append_assoc written bytes (payload cs)))
                (stream_loop-IsPrefix cs (received + length bytes) (written ++ bytes)),
          ))
        small

  pub stream_loop-Counted :
      (cs : List Chunk) (received : ℕ) (written : Bytes)
      → Counted received written (stream_loop max_bytes cs received written)
  unfolding stream_loop
  stream_loop-Counted [] received written = refl
  stream_loop-Counted (c ∷ cs) received written =
      after_chunk-rule (λ s. Counted received written s) (λ r w. stream_loop max_bytes cs r w)
        max_bytes received written c c.bytes (λ f. tt)
        (λ bytes given fits. (
          λ r. tt,
          λ s. omega (arith, length-append written bytes),
          Counted-next received written bytes
              (stream_loop max_bytes cs (received + length bytes) (written ++ bytes))
              (stream_loop-Counted cs (received + length bytes) (written ++ bytes)),
        ))
        small

  -- The cap holds for what is written, on every end.
  abbrev pub Capped : ℕ → Bytes → Bytes → Type 0
  Capped received written written' =
      (written' ≡ written) ⊎ (received + length written' ≤ max_bytes + length written)

  Capped-next :
      (received : ℕ) (written bytes w : Bytes)
      → received + length bytes ≤ max_bytes
      → Capped (received + length bytes) (written ++ bytes) w
      → Capped received written w
  Capped-next received written bytes w fits (inl same) =
      inr (omega (arith, length-append written bytes, ap length same))
  Capped-next received written bytes w fits (inr h) =
      inr (omega (arith, length-append written bytes))

  pub stream_loop-Capped :
      (cs : List Chunk) (received : ℕ) (written : Bytes)
      → Capped received written (stream_loop max_bytes cs received written).1
  unfolding stream_loop
  stream_loop-Capped [] received written = inl refl
  stream_loop-Capped (c ∷ cs) received written =
      after_chunk-rule (λ s. Capped received written s.1) (λ r w. stream_loop max_bytes cs r w)
        max_bytes received written c c.bytes (λ f. inl refl)
        (λ bytes given fits.
          let here : Capped received written (written ++ bytes) =
            inr (omega (arith, length-append written bytes)) in
          (
            λ r. here,
            λ s. here,
            Capped-next received written bytes
                (stream_loop max_bytes cs (received + length bytes) (written ++ bytes)).1 fits
                (stream_loop-Capped cs (received + length bytes) (written ++ bytes)),
          ))
        small
