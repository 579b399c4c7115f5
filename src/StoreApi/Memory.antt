-- ===== src/StoreApi/Memory.antt =====
-- The InMemoryStore as a `Store` with its capabilities (the assertions of inmemory_caps.go). `wall`
-- is what `time.Now()` gives during the call.
use oban.Prelude.{ℤ, some}
use oban.Errors.{Result, ok}
use oban.Store
use oban.Store.{MemStore}
use oban.Store.Caps
use oban.StoreApi.{StoreApi}

abbrev pub answer {ℓ} : {A : Type ℓ} → A × MemStore → Result A × MemStore
answer (a, s) = (ok a, s)

abbrev pub memory : ℤ → StoreApi MemStore
memory wall = record {
  enqueue = Store.enqueue wall;
  fetch_available = λ queue limit now s. answer (Store.fetch_available queue limit now s);
  complete = Store.complete;
  retry = Store.retry;
  discard = Store.discard;
  get_job = λ id s. (Store.get_job id s, s);
  cancel? = some Caps.cancel;
  snooze? = some Caps.snooze;
  retry_now? = some Caps.retry_now;
  delete? = some Caps.delete;
  taggable? = some (record {
    set_tags_meta = Caps.set_tags_meta;
    tags_meta = λ id s. (ok (Caps.tags_meta id s), s);
  });
}
