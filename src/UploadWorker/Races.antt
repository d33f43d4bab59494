-- ===== src/UploadWorker/Races.antt =====
-- Other processes that write the queue of src/db/conn.py during a cycle of src/upload/worker.py.
use bilive.UploadQueue.Claims.{claim_next_upload-Claimed}
use bilive.Base.{
  ◌⊎◌, if-ind, ◌∙◌, ℕ, String, ◌≡◌, refl, Bool, true, false, not, Option, none, some, List, [], ◌∷◌,
  ◌++◌, map, inl, inr, arith, Bool-cases, Option-cases, Codes, str_eq, find,
}
use bilive.Performance.{Fields}
use bilive.UploadQueue.Table.{
  same_status, Row, Queue, uploading, publishing, failed, at_id, at_path, update_row, update_where,
  fetch_item,
}
use bilive.UploadQueue.Consume.{
  claim_next_upload, peek_next_upload, mark_upload_complete, schedule_upload_retry, retry_row,
}
use bilive.UploadQueue.Valid.{IsValid}
use bilive.UploadWorker.World.{
  failed, Outcome-ind, World, Outcome, done, raised, Client, UploadSettings, UploadResult, Metadata,
  Response, login, submit, Call,
}
use bilive.UploadWorker.Files.{read_slice_features, cleanup, loaded, load_metadata}
use bilive.UploadWorker.Process
use bilive.UploadWorker.Process.{finish}
use bilive.UploadWorker.Keeps.{database-settle}

pub calls-finish : (r : UploadResult) (w : World) → (finish r w).0.calls ≡ w.calls
unfolding finish
calls-finish r w = ground arith

pub calls-cleanup :
    (path : String) (metadata : Metadata) (w : World) → (cleanup path metadata w).0.calls ≡ w.calls
unfolding cleanup
calls-cleanup path metadata w = ground arith

module _ (settings : UploadSettings) (client : Client) (now : ℕ) where
  pub record SameCalls (calls : List Call) (step : Process.Step) : Type 0 where
    pub same : step.0.calls ≡ calls

  calls-settle :
      (path : String) (error : Codes) (item : Option Row) (w : World)
      → SameCalls w.calls (Process.settle settings client now path error item w)
  unfolding Process.settle
  calls-settle path error none w = record { same = calls-finish _ w }
  calls-settle path error (some row) w =
      if-ind (SameCalls w.calls) (same_status row.status failed)
        (λ _. record { same = calls-finish _ w }) (λ _. record { same = calls-finish _ w })

  calls-retry_upload :
      (path : String) (error : Codes) (paused : Bool) (w : World)
      → SameCalls w.calls (Process.retry_upload settings client now path error paused w)
  unfolding Process.retry_upload
  calls-retry_upload path error true w = record { same = calls-finish _ _ }
  calls-retry_upload path error false w = calls-settle path _ _ _

  calls-publish_with :
      (features : Option Fields) (path : String) (metadata : Metadata) (bvid : String) (w : World)
      → SameCalls w.calls (Process.publish_with settings client now features path metadata bvid w)
  unfolding Process.publish_with Process.recorded
  calls-publish_with features path metadata bvid w =
      elim (Bool-cases settings.delete_after_success) [
        | inl t ↦ record { same = rw (calls-finish, t) (calls-cleanup path metadata _) }
        | inr f ↦ record { same = rw (calls-finish, f) refl }
      ]

  calls-publish :
      (path : String) (metadata : Metadata) (bvid : String) (w : World)
      → SameCalls w.calls (Process.publish settings client now path metadata bvid w)
  unfolding Process.publish
  calls-publish path metadata bvid w =
      Outcome-ind (SameCalls w.calls) (read_slice_features w path)
        (λ features _. calls-publish_with features path metadata bvid w)
        (λ error _. record { same = refl })

  calls-answered :
      (path : String) (metadata : Metadata) (response : Response) (w : World)
      → SameCalls w.calls (Process.answered settings client now path metadata response w)
  unfolding Process.answered
  calls-answered path metadata response w =
      Outcome-ind (SameCalls w.calls) (Process.api_code settings client now response.code)
        (λ n _.
          if-ind (SameCalls w.calls) (not (Process.is_zero settings client now n))
            (λ _. calls-retry_upload path _ _ w)
            (λ _.
              if-ind (SameCalls w.calls) (str_eq response.bvid "")
                (λ _. calls-retry_upload path _ false w)
                (λ _. calls-publish path metadata response.bvid w)))
        (λ error _. record { same = refl })

  pub calls-submit_row :
      (path : String) (metadata : Metadata) (item : Row) (w : World)
      → SameCalls
          (w.calls ++ submit item.remote_filename metadata ∷ [])
          (Process.submit_row settings client now path metadata item w)
  unfolding Process.submit_row
  calls-submit_row path metadata item w =
      Outcome-ind (SameCalls (w.calls ++ submit item.remote_filename metadata ∷ []))
        (client.submit_uploaded_video item.remote_filename metadata)
        (λ response _. calls-answered path metadata response _) (λ error _. record { same = refl })

  pub calls-on_exception :
      (path : String) (calls : List Call) (step : Process.Step)
      → SameCalls calls step
      → SameCalls calls (Process.on_exception settings client now path step)
  unfolding Process.on_exception
  calls-on_exception path calls (w, done r) same = same
  calls-on_exception path calls (w, raised error) same = record {
    same = (calls-retry_upload path _ false w).same ∙ same.same;
  }

  calls-claim_and_send :
      (metadata : Metadata) (w : World) (c : Row)
      → (claim_next_upload now w.database.queue).1 ≡ some c
      → c.status ≡ publishing
      → SameCalls
          (w.calls ++ submit c.remote_filename metadata ∷ [])
          (Process.claim_and_send settings client now metadata w)
  unfolding Process.claim_and_send Process.send
  calls-claim_and_send metadata w c claimed status =
      rw (claimed, Process.claim_and_send)
        (rw status (
          calls-on_exception c.video_path _ _ (
            calls-submit_row c.video_path metadata c
              (Process.with_queue (claim_next_upload now w.database.queue).0 w))))

  calls-after_login :
      (path : String) (metadata : Metadata) (answer : Outcome Bool) (w : World) (c : Row)
      → answer ≡ done true
      → (claim_next_upload now w.database.queue).1 ≡ some c
      → c.status ≡ publishing
      → SameCalls
          (w.calls ++ submit c.remote_filename metadata ∷ [])
          (Process.after_login settings client now path metadata answer w)
  unfolding Process.after_login
  calls-after_login path metadata (done true) w c ok claimed status =
      calls-claim_and_send metadata w c claimed status
  calls-after_login path metadata (done false) w c ok claimed status = cc
  calls-after_login path metadata (raised error) w c ok claimed status = cc

  -- When the row that a cycle looks at first has readable metadata, the login check succeeds and
  -- the row then claimed is to be published, the cycle submits the video of the claimed row with
  -- the metadata of the row looked at first, whether or not the two are the same row.
  pub calls-process_one :
      (w : World) (pending c : Row) (metadata : Metadata)
      → peek_next_upload now w.database.queue ≡ some pending
      → load_metadata settings w pending.video_path ≡ loaded metadata
      → client.check_login ≡ done true
      → (claim_next_upload now (client.during_login w.database.queue)).1 ≡ some c
      → c.status ≡ publishing
      → (Process.process_one settings client now w).0.calls
        ≡ (w.calls ++ login ∷ []) ++ submit c.remote_filename metadata ∷ []
  unfolding Process.process_one Process.with_login
  calls-process_one w pending c metadata peeked load ok claimed status =
      rw (peeked, Process.process_one)
        (rw load
          (calls-after_login pending.video_path metadata client.check_login _ c ok claimed
            status).same)

find-map :
    (p : Row → Bool) (g : Row → Row) (rs : List Row) (x : Row)
    → ((r : Row) → p (g r) ≡ p r)
    → find p rs ≡ some x
    → find p (map g rs) ≡ some (g x)
find-map p g [] x keeps e = absurd (ground arith)
find-map p g (r ∷ rs) x keeps e = elim (Bool-cases (p r)) [
  | inl t ↦ ground (arith, keeps r)
  | inr n ↦ ground (arith, keeps r, find-map p g rs x keeps (rw n at e))
]

retry_id :
    (most base : ℕ) (item : Row) (error : Codes) (now : ℕ) (r : Row)
    → (retry_row most base item error now r).id ≡ r.id
retry_id most base item error now r = ground arith

-- A retry of one path leaves the row of another path as it is.
find-retry_ne :
    (path : String) (error : Codes) (most base now : ℕ) (q : Queue) (x : Row)
    → find (at_id x.id) q.rows ≡ some x
    → str_eq x.video_path path ≡ false
    → find (at_id x.id) (schedule_upload_retry path error most base now q).0.rows ≡ some x
unfolding schedule_upload_retry update_where
find-retry_ne path error most base now q x e apart = elim (Option-cases (fetch_item q path)) [
  | inl missing ↦ rw (missing, schedule_upload_retry) e
  | inr (item, found) ↦
      let g = update_row (at_path path) (retry_row most base item error now) in
      rw (found, schedule_upload_retry)
        (find-map (at_id x.id) g q.rows x (λ r. ground (arith, retry_id most base item error now r))
            e
          ∙ rw apart refl)
]

module _ (settings : UploadSettings) (client : Client) (now : ℕ) where
  -- When the claim after an upload, from a valid table, gives the row of another video, the cycle
  -- ends with that row still claimed, as uploading or publishing, and without another call of the client:
  -- the consumer neither sends it nor releases it.
  pub reclaim-orphan :
      (path : String) (metadata : Metadata) (remote : String) (w : World) (c : Row)
      → IsValid (mark_upload_complete path remote now w.database.queue).0
      → (claim_next_upload now (mark_upload_complete path remote now w.database.queue).0).1 ≡ some c
      → str_eq c.video_path path ≡ false
      → (find
            (at_id c.id)
            (Process.on_exception settings client now path
              (Process.reclaim settings client now path metadata remote w)).0.database.queue.rows
          ≡ some c)
        × ((c.status ≡ uploading) ⊎ (c.status ≡ publishing))
        × ((Process.on_exception settings client now path
              (Process.reclaim settings client now path metadata remote w)).0.calls
            ≡ w.calls)
  unfolding Process.reclaim Process.on_exception Process.retry_upload
  reclaim-orphan path metadata remote w c v claimed apart =
      let q = (mark_upload_complete path remote now w.database.queue).0 in
      let taken_row = claim_next_upload-Claimed now q c v claimed in
      (
        rw (claimed, Process.reclaim)
            (rw apart (
              rw database-settle (
                find-retry_ne path _ _ _ now (claim_next_upload now q).0 c taken_row.stands
                  apart))),
        elim taken_row.held [ inl h ↦ inl h.1 | inr h ↦ inr h.1 ],
        rw (claimed, Process.reclaim)
            (rw apart (
              (calls-retry_upload settings client now path _ false
                (Process.with_queue (claim_next_upload now q).0 w)).same)),
      )
