-- ===== src/Board/Entries/Tests.antt =====
-- Runs of the delivery state of src/board/delivery.ts, and its theorem at a concrete input.
use pi_kiwifs_memory.Prelude.{ℕ, ◌≡◌, refl, String, Option, none, some, [], ◌∷◌}
use pi_kiwifs_memory.Board.Entries.{
  DeliveryEntry, DeliveryState, get_entry, is_settled, is_collected, is_stale, collecting,
  state_step, gc, save, evict, victims,
}
use pi_kiwifs_memory.Board.Entries.Open.{IsHeld, state_step-IsHeld}

abbrev entry : String → Option ℕ → DeliveryEntry
entry id acked = record {
  msg_id = id;
  path = id;
  channel = "general";
  delivered_at = some 5;
  acked_at = acked;
  skip = none;
  skipped_at = none;
}

abbrev tracked : DeliveryState
tracked = record { last_seq = some "7"; entries = entry "a" (some 6) ∷ entry "b" none ∷ [] }

-- A collection long afterwards removes the acknowledged entry only.
collected : (gc 2000000000 tracked).0.entries ≡ entry "b" none ∷ []
unfolding gc is_collected is_stale save evict victims
collected = refl

abbrev tracked-IsHeld : IsHeld "b" tracked.entries
unfolding get_entry is_settled
tracked-IsHeld = record {
  distinct = (refl, (refl, tt));
  entry = entry "b" none;
  found = refl;
  unsettled = refl;
}

state_step-IsHeld_example : IsHeld "b" (state_step (collecting 2000000000) tracked).entries
unfolding tracked-IsHeld
state_step-IsHeld_example =
    state_step-IsHeld (collecting 2000000000) "b" tracked tracked-IsHeld refl refl
