-- ===== src/UploadWorker/Protocol.antt =====
-- The calls of the client that a cycle of src/upload/worker.py makes.
use bilive.Base.{
  ◌⊎◌, inl, inr, if-ind, Option-ind, ◌∙◌, sym, ℕ, String, ◌≡◌, refl, Bool, true, false, List, [],
  ◌∷◌, ◌++◌, str_eq,
}
use mathlib.Core.List.{append-nil, append_assoc}
use bilive.UploadQueue.Table.{same_status, Row, uploading}
use bilive.UploadQueue.Consume.{claim_next_upload, peek_next_upload, mark_upload_complete}
use bilive.UploadWorker.World.{
  Outcome-ind, World, Outcome, done, raised, Client, UploadSettings, Metadata, login, upload,
  submit, Call,
}
use bilive.UploadWorker.Files.{load_metadata, Loaded-ind}
use bilive.UploadWorker.Process
use bilive.UploadWorker.Races.{calls-finish, calls-on_exception, calls-submit_row}

-- Nothing, an upload, a submission, or an upload and then a submission with the same metadata.
pub data Sends : List Call → Type 0 where
  nothing : Sends []
  uploaded : (path : String) (metadata : Metadata) → Sends (upload path metadata ∷ [])
  submitted : (remote : String) (metadata : Metadata) → Sends (submit remote metadata ∷ [])
  both :
      (path remote : String) (metadata : Metadata)
      → Sends (upload path metadata ∷ submit remote metadata ∷ [])

-- The calls of a cycle: none, or a login check, after which anything is sent only where it succeeded.
pub data Protocol (answer : Outcome Bool) : List Call → Type 0 where
  quiet : Protocol answer []
  checked : Protocol answer (login ∷ [])
  sent : (calls : List Call) → answer ≡ done true → Sends calls → Protocol answer (login ∷ calls)

-- The calls of a step are those before it and then some that satisfy a condition.
record Makes (P : List Call → Type 0) (before : List Call) (step : Process.Step) : Type 0 where
  calls : List Call
  made : step.0.calls ≡ before ++ calls
  good : P calls

-- The calls after an upload of a video, and the calls after a row is claimed.
abbrev AfterUpload : String → Metadata → List Call → Type 0
AfterUpload path metadata calls = Sends (upload path metadata ∷ calls)

abbrev OneSubmission : Metadata → List Call → Type 0
OneSubmission metadata calls =
    (calls ≡ []) ⊎ ((remote : String) × (calls ≡ submit remote metadata ∷ []))

AfterUpload-OneSubmission :
    (path : String) (metadata : Metadata) (calls : List Call)
    → OneSubmission metadata calls
    → AfterUpload path metadata calls
AfterUpload-OneSubmission path metadata calls (inl e) = rw e (uploaded path metadata)
AfterUpload-OneSubmission path metadata calls (inr (remote, e)) = rw e (both path remote metadata)

Makes-nothing :
    (P : List Call → Type 0) (before : List Call) (step : Process.Step)
    → P []
    → step.0.calls ≡ before
    → Makes P before step
Makes-nothing P before step empty e = record {
  calls = [];
  made = e ∙ sym (append-nil before);
  good = empty;
}

-- Calls that come after one more call.
Makes-after :
    (P Q : List Call → Type 0) (before : List Call) (call : Call) (step : Process.Step)
    → ((calls : List Call) → P calls → Q (call ∷ calls))
    → Makes P (before ++ call ∷ []) step
    → Makes Q before step
Makes-after P Q before call step f m = record {
  calls = call ∷ m.calls;
  made = m.made ∙ append_assoc before (call ∷ []) m.calls;
  good = f m.calls m.good;
}

module _ (settings : UploadSettings) (client : Client) (now : ℕ) where
  Makes-submit_row :
      (path : String) (metadata : Metadata) (item : Row) (w : World)
      → Makes
          (OneSubmission metadata)
          w.calls
          (Process.submit_row settings client now path metadata item w)
  Makes-submit_row path metadata item w = record {
    calls = submit item.remote_filename metadata ∷ [];
    made = (calls-submit_row settings client now path metadata item w).same;
    good = inr (item.remote_filename, refl);
  }

  Makes-reclaim :
      (path : String) (metadata : Metadata) (remote : String) (w : World)
      → Makes
          (OneSubmission metadata)
          w.calls
          (Process.reclaim settings client now path metadata remote w)
  unfolding Process.reclaim
  Makes-reclaim path metadata remote w =
      Option-ind (Makes (OneSubmission metadata) w.calls)
        (claim_next_upload now (mark_upload_complete path remote now w.database.queue).0).1
        (λ _. Makes-nothing (OneSubmission metadata) w.calls _ (inl refl) refl)
        (λ row _.
          if-ind (Makes (OneSubmission metadata) w.calls) (str_eq row.video_path path)
            (λ _. Makes-submit_row path metadata row _)
            (λ _. Makes-nothing (OneSubmission metadata) w.calls _ (inl refl) refl))

  Sends-OneSubmission :
      (metadata : Metadata) (calls : List Call) → OneSubmission metadata calls → Sends calls
  Sends-OneSubmission metadata calls (inl e) = rw e nothing
  Sends-OneSubmission metadata calls (inr (remote, e)) = rw e (submitted remote metadata)

  Makes-send :
      (path : String) (metadata : Metadata) (item : Row) (w : World)
      → Makes Sends w.calls (Process.send settings client now path metadata item w)
  unfolding Process.send
  Makes-send path metadata item w =
      if-ind (Makes Sends w.calls) (same_status item.status uploading)
        (λ _.
          Outcome-ind (Makes Sends w.calls) (client.upload_file path metadata)
            (λ remote _.
              Makes-after (OneSubmission metadata) Sends w.calls (upload path metadata) _
                (AfterUpload-OneSubmission path metadata)
                (Makes-reclaim path metadata remote
                  (record (Process.with_queue (client.during_upload w.database.queue) w) {
                    calls = w.calls ++ upload path metadata ∷ [];
                  })))
            (λ error _. record {
              calls = upload path metadata ∷ [];
              made = refl;
              good = uploaded path metadata;
            }))
        (λ _.
          let m = Makes-submit_row path metadata item w in
          record {
            calls = m.calls;
            made = m.made;
            good = Sends-OneSubmission metadata m.calls m.good;
          })

  Makes-on_exception :
      (path : String) (before : List Call) (step : Process.Step)
      → Makes Sends before step
      → Makes Sends before (Process.on_exception settings client now path step)
  Makes-on_exception path before step m = record {
    calls = m.calls;
    made =
        (calls-on_exception settings client now path (before ++ m.calls) step
          (record { same = m.made })).same;
    good = m.good;
  }

  Makes-claim_and_send :
      (metadata : Metadata) (w : World)
      → Makes Sends w.calls (Process.claim_and_send settings client now metadata w)
  unfolding Process.claim_and_send
  Makes-claim_and_send metadata w =
      Option-ind (Makes Sends w.calls) (claim_next_upload now w.database.queue).1
        (λ _. Makes-nothing Sends w.calls _ nothing (calls-finish _ _))
        (λ row _.
          Makes-on_exception row.video_path w.calls _ (Makes-send row.video_path metadata row _))

  After : List Call → Type 0
  After calls = Protocol client.check_login (login ∷ calls)

  Makes-after_login :
      (path : String) (metadata : Metadata) (answer : Outcome Bool) (w : World)
      → client.check_login ≡ answer
      → Makes After w.calls (Process.after_login settings client now path metadata answer w)
  unfolding Process.after_login After
  Makes-after_login path metadata (raised error) w e =
      Makes-nothing After w.calls _ checked (calls-finish _ w)
  Makes-after_login path metadata (done false) w e =
      Makes-nothing After w.calls _ checked (calls-finish _ w)
  Makes-after_login path metadata (done true) w e =
      let m = Makes-claim_and_send metadata w in
      record { calls = m.calls; made = m.made; good = sent m.calls e m.good }

  Makes-process_one :
      (w : World)
      → Makes (Protocol client.check_login) w.calls (Process.process_one settings client now w)
  unfolding Process.process_one Process.with_login After
  Makes-process_one w =
      let P = Protocol client.check_login in
      Option-ind (Makes P w.calls) (peek_next_upload now w.database.queue)
        (λ _. Makes-nothing P w.calls _ quiet (calls-finish _ w))
        (λ pending _.
          Loaded-ind (Makes P w.calls) (load_metadata settings w pending.video_path)
            (λ metadata _.
              Makes-after After P w.calls login _ (λ calls h. h)
                (Makes-after_login pending.video_path metadata client.check_login _ refl))
            (λ error _. Makes-nothing P w.calls _ quiet (calls-finish _ _)))

  -- A cycle makes no call, or a login check first and then nothing, one upload, one submission, or one
  -- upload and after it one submission with the same metadata; and something is uploaded or submitted only
  -- where the login check succeeded. This holds whatever the queue, the files, the client and the other
  -- processes do, and also where an exception leaves the cycle.
  pub calls-process_one_lem :
      (w : World)
      → (calls : List Call) × ((Process.process_one settings client now w).0.calls
          ≡ w.calls ++ calls)
        × Protocol client.check_login calls
  calls-process_one_lem w = let m = Makes-process_one w in (m.calls, m.made, m.good)
