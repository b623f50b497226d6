-- ===== src/Direct/Download.antt =====
-- src/torrent/poller/direct.rs, `direct_download`, and src/torrent/poller/complete.rs, `spawn_direct`: the
-- whole task of a direct download.
pub mod Ended
use zimi_rs.Base.{
  ℕ, Bool, true, false, Option, none, some, List, [], ◌∷◌, if◌then◌else◌, lookup, insert, remove,
  Text, text_keys, Result, ok, err, ◌>>=◌,
}
use zimi_rs.Net.Fetch.{Web, Pin, Error, PinnedResponse, validate_download_url, follow_pinned_get}
use zimi_rs.Downloads.Table.{Env}
use zimi_rs.Downloads.Lifecycle.{mark_error}
use zimi_rs.Direct.Stream.{
  Bytes, Part, Reply, Disk, Failure, marked, io, StreamOutcome, Settled, stream_part, resume_plan,
}
use zimi_rs.Direct.Finalize.{
  World, Finished, FinalizeError, Outcome, Setting, finalize_direct_download,
}

pub data TaskError : Type 0 where
  no_client : TaskError
  network : Error → TaskError
  transfer : Failure → TaskError
  finalize : FinalizeError → TaskError

-- `cancelled_transfer` is the cancel that the stream has seen.
pub data TaskEnd : Type 0 where
  cancelled_transfer : TaskEnd
  settled : Outcome → TaskEnd

-- What the transfer meets: whether there is an HTTP client, the network, the rest of an answer once its chain of redirects has ended,
-- the answer to the request without a range, and the disk; `after` is what other tasks have done
-- by the time that it ends.
pub record Transfer : Type 0 where
  pub has_client : Bool
  pub web : Web
  pub private : Bool
  pub max_bytes : ℕ
  pub reply_of : PinnedResponse → Reply
  pub again : Result Reply (Unit {0})
  pub disk : Disk
  pub after : World → World
  pub mark_env : Env
  pub last_env : Env
  pub message : Text

module _ (t : Transfer) (set : Setting) (id : ℕ) (url part : Text) (dst : Option Text) where
  abbrev pub put_part : Part → World → World
  put_part none w = record w { files = remove part w.files }
  put_part (some bytes) w = record w { files = insert part bytes w.files }

  abbrev pub mark : Env → World → World
  mark env w = record w { db = mark_error env id t.message w.db }

  abbrev pub finalized : Finished → World × Result TaskEnd TaskError
  finalized (w, ok o) = (w, ok (settled o))
  finalized (w, err e) = (w, err (finalize e))

  abbrev pub streamed : World → Result StreamOutcome Failure → World × Result TaskEnd TaskError
  streamed w (err (marked c)) = (mark t.mark_env w, err (transfer (marked c)))
  streamed w (err io) = (w, err (transfer io))
  streamed w (ok o) =
      if o.was_cancelled
      then (w, ok cancelled_transfer)
      else finalized (finalize_direct_download set id part dst w)

  abbrev pub with_status : ℕ → Reply → Reply
  with_status status r = record r { status = status }

  -- The stream of the final answer into the staged file.
  abbrev pub stream_of : World → PinnedResponse → Settled
  stream_of w p =
      let staged = lookup part w.files in
      let reply = with_status p.response.status (t.reply_of p) in
      stream_part t.disk t.max_bytes staged (resume_plan staged) reply t.again

  abbrev pub transferred : World → Result PinnedResponse Error → World × Result TaskEnd TaskError
  transferred w (err e) = (w, err (network e))
  transferred w (ok p) = let (part', r) = stream_of w p in streamed (put_part part' (t.after w)) r

  unfoldable pub direct_download : World → World × Result TaskEnd TaskError
  direct_download w =
      transferred w
        (validate_download_url t.web url t.private >>= λ _. (follow_pinned_get t.web [] url).0)

  -- Every error of the task marks the row.
  abbrev pub ended : World × Result TaskEnd TaskError → World × Result TaskEnd TaskError
  ended (w, ok e) = (w, ok e)
  ended (w, err e) = (mark t.last_env w, err e)

  abbrev pub with_client : Bool → World → World × Result TaskEnd TaskError
  with_client true w = direct_download w
  with_client false w = (w, err no_client)

  unfoldable pub spawn_direct : World → World × Result TaskEnd TaskError
  unfolding direct_download
  spawn_direct w = ended (with_client t.has_client w)
