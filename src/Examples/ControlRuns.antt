-- ===== src/Examples/ControlRuns.antt =====
-- The theorems on operators' controls and on queries, applied to the example stores.
use oban.Prelude.{◌≡◌, ◌≢◌, ◌↔◌, ◌<ℤ◌, ◌≤ℤ◌, String, List, pos, [], ◌∷◌, none, some, In}
use oban.Prelude.Laws.{Ordered}
use oban.Errors.{Result, ok}
use oban.Job.{executing, Job, zero_time}
use oban.Store.{MemStore, id_before}
use oban.Store.Query.{JobFilter, list_jobs}
use oban.Store.Select.{Selects, list_jobs_lem}
use oban.StoreApi.Memory.{memory}
use oban.Control.{Controls, new_controls, pause, resume, scale, controlled_fetch}
use oban.Control.Gate.{controlled_fetch_lem}
use oban.Examples.Data.{office}

abbrev halved : Controls
halved = scale "default" (pos 4) new_controls

controlled_fetch_lem_example :
    let fetch : Controls → String → Result (List Job) × MemStore =
      λ c q. controlled_fetch (memory (pos 30)) c q (pos 9) (pos 30) office in
    (fetch (pause "default" halved) "default" ≡ (ok [], office))
    × (pos 0 <ℤ pos 4
        → fetch (resume "default" halved) "default"
          ≡ (memory (pos 30)).fetch_available "default" (pos 4) (pos 30) office)
    × (pos 4 ≤ℤ pos 0
        → fetch (resume "default" halved) "default"
          ≡ (memory (pos 30)).fetch_available "default" (pos 9) (pos 30) office)
    × ((n : String)
        → "default" ≢ n
        → (fetch (pause "default" halved) n ≡ fetch new_controls n)
          × (fetch (resume "default" halved) n ≡ fetch new_controls n))
controlled_fetch_lem_example =
    controlled_fetch_lem (memory (pos 30)) "default" (pos 4) (pos 9) (pos 30) new_controls office

abbrev running_mails : JobFilter
running_mails = record {
  queue = "";
  worker = "mail";
  states = executing ∷ [];
  min_priority = none;
  max_priority = some (pos 3);
  inserted_after = zero_time;
  inserted_before = pos 40;
}

list_jobs_lem_example :
    Ordered id_before (list_jobs running_mails office)
    × ((j : Job)
        → In j (list_jobs running_mails office) ↔ (In j office.jobs × Selects running_mails j))
list_jobs_lem_example = list_jobs_lem running_mails office
