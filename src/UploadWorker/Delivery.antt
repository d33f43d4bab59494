-- ===== src/UploadWorker/Delivery.antt =====
-- An accepted submission of src/upload/worker.py.
use bilive.Base.{
  Option, ℕ, String, ◌≡◌, refl, false, none, some, List, [], ◌∷◌, ◌++◌, inl, inr, find, Bool-cases,
  str_eq, ◌∙◌,
}
use bilive.UploadQueue.Table
use bilive.UploadQueue.Table.{Row, Queue, at_path}
use bilive.UploadWorker.World.{
  World, done, Client, UploadSettings, UploadResult, Metadata, Response, ResponseCode, submit, Call,
  published,
}
use bilive.UploadWorker.Texts.{pos}
use bilive.UploadWorker.Process
use bilive.UploadWorker.Process.{finish, mark_upload_published}
use bilive.UploadWorker.Reopened.{find-world_after, recorded_lem, world_after}
use bilive.Performance.{Fields}
use bilive.UploadWorker.Files.{read_slice_features}
use bilive.UploadWorker.Races.{calls-cleanup}

-- The step returns the result `published`, with the row of the video published under its BVID, after
-- these calls of the client.
pub record IsPublished (path bvid : String) (calls : List Call) (step : Process.Step) : Type 0 where
  pub result : UploadResult
  pub returned : step.1 ≡ done result
  pub status : result.status ≡ published
  pub same_bvid : result.bvid ≡ bvid
  pub row : Row
  pub found : find (at_path path) step.0.database.queue.rows ≡ some row
  pub row_status : row.status ≡ Table.Status.published
  pub row_bvid : row.bvid ≡ bvid
  pub made : step.0.calls ≡ calls

finish_done :
    (r : UploadResult) (w : World)
    → w.write_error w.writes ≡ none
    → ((finish r w).1 ≡ done r)
      × ((finish r w).0.database ≡ w.database)
      × ((finish r w).0.calls ≡ w.calls)
unfolding finish
finish_done r w e = rw (e, finish) (refl, refl, refl)

module _ (settings : UploadSettings) (client : Client) (now : ℕ) (path : String)
    (metadata : Metadata) where
  calls-recorded :
      (features : Option Fields) (bvid : String) (w : World)
      → (world_after settings client now path features metadata bvid w).calls ≡ w.calls
  unfolding Process.recorded
  calls-recorded features bvid w = elim (Bool-cases settings.delete_after_success) [
    | inl t ↦ rw t (calls-cleanup path metadata _)
    | inr f ↦ rw f refl
  ]

  publish-IsPublished :
      (features : Option Fields) (bvid : String) (w : World) (row : Row)
      → read_slice_features w path ≡ done features
      → find (at_path path) w.database.queue.rows ≡ some row
      → w.write_error w.writes ≡ none
      → IsPublished path bvid w.calls (Process.publish settings client now path metadata bvid w)
  unfolding Process.publish Process.publish_with
  publish-IsPublished features bvid w row readable found writes =
      let w2 = world_after settings client now path features metadata bvid w in
      let facts = recorded_lem settings client now path features metadata bvid w in
      let (row1, found1, is_published, bvid1) =
        find-world_after settings client now path features metadata bvid w row found in
      let writes2 : w2.write_error w2.writes ≡ none = rw (facts.0, facts.1) writes in
      let ended = λ (r : UploadResult). finish_done r w2 writes2 in
      rw (readable, Process.publish)
        (record {
          result = _;
          returned = (ended _).0;
          status = refl;
          same_bvid = refl;
          row = row1;
          found = rw (ended _).1 found1;
          row_status = is_published;
          row_bvid = bvid1;
          made = (ended _).2 ∙ calls-recorded features bvid w;
        })

  -- When Bilibili accepts a submission with a BVID, the row of the video is in the table that other
  -- processes leave during the call, the features file of the video is decodable, and the status file can
  -- be written, the rest of the cycle returns the
  -- result `published`, with that row published under the BVID, and after exactly one submission of
  -- the row's remote file. Whether the files can be deleted does not matter.
  pub submit_row-IsPublished :
      (item row : Row) (response : Response) (features : Option Fields) (w : World)
      → client.submit_uploaded_video item.remote_filename metadata ≡ done response
      → response.code ≡ ResponseCode.code (pos 0)
      → str_eq response.bvid "" ≡ false
      → read_slice_features w path ≡ done features
      → find (at_path path) (client.during_submit w.database.queue).rows ≡ some row
      → w.write_error w.writes ≡ none
      → IsPublished path response.bvid
          (w.calls ++ submit item.remote_filename metadata ∷ [])
          (Process.submit_row settings client now path metadata item w)
  unfolding Process.submit_row Process.answered read_slice_features
  submit_row-IsPublished item row response features w answered accepted has_bvid readable found
        writes =
      let sent : World = record (Process.with_queue (client.during_submit w.database.queue) w) {
        calls = w.calls ++ submit item.remote_filename metadata ∷ [];
      } in
      rw (answered, Process.submit_row)
        (rw (accepted, Process.answered)
          (rw has_bvid (publish-IsPublished features response.bvid sent row readable found writes)))
