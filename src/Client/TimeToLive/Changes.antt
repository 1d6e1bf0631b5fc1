-- ===== src/Client/TimeToLive/Changes.antt =====
-- How `set_time_to_live` of client.py ends.
use aiodynamo.Prelude.{ℕ, ◌≡◌, ◌⊎◌, String, Option}
use aiodynamo.Errors.{Result, ok, raised, time_to_live_status_not_changed}
use aiodynamo.Models.Tables.{TimeToLiveStatus, TimeToLiveDescription}
use aiodynamo.Models.Retry.{WaitConfig, no_wait}
use aiodynamo.Client.TimeToLive.{RawTimeToLive, describe_time_to_live}

module _ (table : String) (describe : ℕ → Result (Option RawTimeToLive)) where
  -- What `set_time_to_live` gives: it returns after a description with the status that was asked for,
  -- unless the caller does not wait; it raises what a response raised, or TimeToLiveStatusNotChanged.
  abbrev pub IsChanged :
      WaitConfig → TimeToLiveStatus → Result (Unit {0}) → Result (Unit {0}) → Type 0
  IsChanged config desired sent (ok s) =
      (sent ≡ ok s)
      × ((config ≡ no_wait)
          ⊎ ((k : ℕ) × (d : TimeToLiveDescription) × (describe_time_to_live table (describe k)
                ≡ ok d)
              × (d.status ≡ desired)))
  IsChanged config desired sent (raised e) =
      (sent ≡ raised e)
      ⊎ ((k : ℕ) × (describe_time_to_live table (describe k) ≡ raised e))
      ⊎ (e ≡ time_to_live_status_not_changed)
