-- ===== src/Examples/Queue.antt =====
-- The theorems on the upload queue at concrete tables.
use bilive.Stages.Queueing.{stage_upload_stage, stage_call}
use bilive.Stages.Staged.{IsStaged, stage_upload_stage-IsStaged}
use bilive.Base.{false, ◌≡◌, ◌≢◌, refl, some, List, [], ◌∷◌, arith, strip}
use bilive.UploadQueue.Table.{
  Row, Queue, queued, uploaded, publishing, new_row, fetch_item, update_where,
}
use bilive.UploadQueue.Supply.{activate_staged_upload}
use bilive.UploadQueue.Consume.{claim_next_upload, mark_upload_complete, peek_next_upload}
use bilive.UploadQueue.Valid.{IsValid}
use bilive.UploadQueue.Transactions.{
  insert, stage, activate, claim, Transaction, run, run_all, run_all-IsValid, empty-IsValid,
}
use bilive.UploadQueue.Claims.{Claimed, claim_next_upload-Claimed, taken}
use bilive.UploadQueue.Resume.{claim-mark_upload_complete, sent}
use bilive.UploadQueue.Held.{claim-ne-claim}
use bilive.UploadQueue.Retry.{AfterFailures, fail_times, fail_times-AfterFailures}
use bilive.UploadQueue.Sent.{IsSent}
use bilive.UploadQueue.Resend.{claim-publishing}

abbrev empty : Queue
empty = record { rows = []; next_id = 1 }

abbrev first : Row
first = new_row 1 "/v/7 - up/a.mp4" queued 5

abbrev second : Row
second = record (new_row 2 "/v/7 - up/b.mp4" uploaded 6) { remote_filename = "n2"; attempts = 1 }

abbrev two : Queue
two = record { rows = first ∷ second ∷ []; next_id = 3 }

two-IsValid : IsValid two
two-IsValid = record { ordered = omega arith; distinct = ((refl, tt), (tt, tt)) }

abbrev script : List Transaction
script =
    insert "/v/7 - up/a.mp4" 1
    ∷ stage "/v/7 - up/b.mp4" 2
    ∷ activate "/v/7 - up/b.mp4" 3
    ∷ claim 4
    ∷ []

run_all-IsValid_example : IsValid (run_all script empty)
run_all-IsValid_example = run_all-IsValid script empty-IsValid

claim_next_upload-Claimed_example : Claimed 9 two (claim_next_upload 9 two).0 (taken 9 first)
unfolding claim_next_upload update_where
claim_next_upload-Claimed_example = claim_next_upload-Claimed 9 two (taken 9 first) two-IsValid refl

claim-mark_upload_complete_example :
    (claim_next_upload 9
      (mark_upload_complete "/v/7 - up/a.mp4" "n1" 9 (claim_next_upload 9 two).0).0).1
    ≡ some (sent "n1" 9 first)
unfolding peek_next_upload
claim-mark_upload_complete_example = claim-mark_upload_complete 9 two "n1" first two-IsValid refl

claim-ne-claim_example : (taken 11 second).id ≢ (taken 9 first).id
unfolding claim_next_upload update_where run run_all activate_staged_upload fetch_item
claim-ne-claim_example =
    claim-ne-claim 9 11 two (activate "/v/7 - up/b.mp4" 10 ∷ []) (taken 9 first) (taken 11 second)
      two-IsValid (refl, tt) refl refl

fail_times-AfterFailures_example :
    AfterFailures "/v/7 - up/b.mp4" 3 30 second 3 40
      (fail_times "/v/7 - up/b.mp4" 3 30 (([], 10) ∷ ([], 40) ∷ []) two)
fail_times-AfterFailures_example =
    fail_times-AfterFailures "/v/7 - up/b.mp4" 3 30 [] 10 (([], 40) ∷ []) two second refl

two-IsSent : IsSent two
unfolding strip
two-IsSent = (λ text. cc, (λ text. refl, tt))

claim-publishing_example : (taken 11 second).status ≡ publishing
unfolding claim_next_upload update_where run run_all strip
claim-publishing_example =
    claim-publishing 11 (claim 9 ∷ []) two (taken 11 second) two-IsValid two-IsSent (refl, tt) refl
      refl

stage_upload_stage-IsStaged_example :
    IsStaged "/v/22384516/a.mp4" (stage_upload_stage (stage_call "/v/22384516/a.mp4" 5) false two)
stage_upload_stage-IsStaged_example = stage_upload_stage-IsStaged "/v/22384516/a.mp4" 5 two
