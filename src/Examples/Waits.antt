-- ===== src/Examples/Waits.antt =====
-- The theorems on the waiting loop, at concrete pools.
use kuasar.Prelude.{◌≡◌, refl, none, some, [], ◌∷◌, ◌==◌, false}
use kuasar.Prelude.Exec.{ok}
use kuasar.Prelude.Map
use kuasar.Template.Pool.Acquire.{latest, pin_restore}
use kuasar.Template.Pool.Add.{
  add, insert_template, make_key_room, make_room, save, eviction, kind_max_per_key,
}
use kuasar.Template.Pool.Refs.{end_refill, in_flight_count_for_key, notify}
use kuasar.Template.Pool.State.{TemplatePool, push_template, total_depth}
use kuasar.Template.Pool.Wait.{adds, ends, wait_and_acquire_for_restore}
use kuasar.Template.Pool.Waiting.{
  ended, wait_and_acquire_for_restore-found, wait_and_acquire_for_restore-gives_up,
}
use kuasar.Template.Disk.{create_dir_all, dir_at, write_dir}
use kuasar.Template.Types.{TemplateKey, exclusive}
use kuasar.Examples.Data.{good_io, old_template, two_dirs}

abbrev key : TemplateKey
key = record { key = "k" }

abbrev empty_pool : TemplatePool
empty_pool = record {
  available = [];
  disk = two_dirs;
  environment_max_per_key = 4;
  warmfork_max_per_key = 4;
  in_flight_refills = ("k", 1) ∷ [];
  in_flight_restores = [];
  template_ready = 0;
  in_use_count = [];
  gc_watermark = 8;
  lease_mode = exclusive;
  reflink_supported = false;
}

abbrev other_key : TemplateKey
other_key = record { key = "other" }

added :
    add good_io old_template (ended (other_key ∷ []) empty_pool)
    ≡ (ok tt, (add good_io old_template (ended (other_key ∷ []) empty_pool)).1)
unfolding Map.get in_flight_count_for_key ◌==◌ add insert_template make_key_room make_room save
    push_template total_depth notify Map.put create_dir_all dir_at write_dir kind_max_per_key
    eviction end_refill
added = refl

-- A refill of another key ends, and then one of the key adds its template.
wait_and_acquire_for_restore-found_example :
    wait_and_acquire_for_restore good_io key
      (ends other_key ∷ adds old_template ∷ ends key ∷ [])
      empty_pool
    ≡ pin_restore
        (some old_template)
        (add good_io old_template (ended (other_key ∷ []) empty_pool)).1
unfolding latest Map.get ◌==◌ in_flight_count_for_key
wait_and_acquire_for_restore-found_example =
    wait_and_acquire_for_restore-found good_io key 0 (other_key ∷ []) old_template (ends key ∷ [])
      empty_pool (add good_io old_template (ended (other_key ∷ []) empty_pool)).1 refl refl
      (refl, tt) refl refl added

wait_and_acquire_for_restore-gives_up_example :
    wait_and_acquire_for_restore good_io key
      (ends other_key ∷ ends key ∷ adds old_template ∷ [])
      empty_pool
    ≡ (ok none, end_refill key (ended (other_key ∷ []) empty_pool))
unfolding latest Map.get ◌==◌ in_flight_count_for_key
wait_and_acquire_for_restore-gives_up_example =
    wait_and_acquire_for_restore-gives_up good_io key (other_key ∷ []) (adds old_template ∷ [])
      empty_pool refl refl (refl, tt)
