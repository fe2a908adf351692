-- ===== src/Tests/Storage.antt =====
-- Examples of rings, pools, arrays and the configuration.
use ti_features.Prelude.{ℕ, ◌≡◌, refl, true, false, [], ◌∷◌, some, arith, is_set}
use ti_features.CircularBuffer.{CircularBuffer, done, clear, get_array}
use ti_features.CircularBuffer.Valid.{IsValid}
use ti_features.CircularBuffer.Read.{push_all, get_array-push_all}
use ti_features.MemoryPool.{zeroed_ℕ, Pool, tiny, small, init_ex, upgrade}
use ti_features.MemoryPool.Layout.{IsLaidOut, init_ex-IsLaidOut}
use ti_features.MemoryPool.Upgrade.{Kept, upgrade-IsValid, check_upgrade_lem}
use ti_features.MemoryPool.Upgrade
use ti_features.Config
use ti_features.Config.{read, destroy, max_first_n_packets}
use ti_features.Config.Laws.{read-failed, read-done}
use ti_features.Tests.{tiny_pool, defaults, no_pool}

-- A ring of two elements of four bytes that holds 7.
abbrev ring : CircularBuffer ℕ
ring = record {
  cells = some (7 ∷ 0 ∷ []);
  elem_size = 4;
  capacity = 2;
  count = 1;
  head = 1;
  tail = 0;
  is_full = false;
}

ring-IsValid : IsValid ring (7 ∷ 0 ∷ [])
ring-IsValid = record {
  held = refl;
  long = refl;
  sized = omega arith;
  nonempty = omega arith;
  small = omega arith;
  full_iff = refl;
  count_le = omega arith;
  head_eq = refl;
  tail_lt = omega arith;
  tail_zero = λ e. refl;
}

get_array-push_all_example :
    get_array (push_all (clear ring) (1 ∷ 2 ∷ 3 ∷ [])) true ≡ (some (2 ∷ 3 ∷ []), 2)
get_array-push_all_example = get_array-push_all ring (7 ∷ 0 ∷ []) 1 (2 ∷ 3 ∷ []) ring-IsValid

init_ex-IsLaidOut_example : IsLaidOut tiny_pool 64 4 2
unfolding tiny_pool init_ex
init_ex-IsLaidOut_example = init_ex-IsLaidOut tiny 4 2 tiny_pool refl

abbrev temp_pool : Pool ℕ
temp_pool = record no_pool { temp_mem = 640; temp_mem_size = 8192; temp_mem_offset = 10 }

tiny_pool-IsValid : Upgrade.IsValid tiny_pool
unfolding tiny_pool init_ex
tiny_pool-IsValid = record {
  seq_len_eq = refl;
  laid_out = init_ex-IsLaidOut tiny 4 2 tiny_pool refl;
}

upgrade-IsValid_example :
    let (status, new) = upgrade tiny_pool small true in
    (status ≡ done) × (new.level ≡ small) × Upgrade.IsValid new × Kept tiny_pool new
unfolding tiny_pool init_ex
upgrade-IsValid_example = upgrade-IsValid tiny_pool small tiny_pool-IsValid (omega arith)

read-failed_example :
    ((read (defaults false)).1.has_log ≡ false) × ((read (defaults false)).1.has_producer ≡ false)
unfolding read
read-failed_example = read-failed (defaults false) refl

read-done_example :
    ((read (defaults true)).1.has_log ≡ true)
    × ((read (defaults true)).1.has_producer ≡ is_set (read (defaults true)).1.send_kafka_flag)
    × ((destroy (read (defaults true)).1).has_log ≡ false)
    × ((destroy (read (defaults true)).1).has_producer ≡ false)
unfolding read Config.read_parts Config.read_sni Config.read_kafka Config.read_outputs
    Config.read_feature_bridge Config.init
read-done_example = read-done (defaults true) refl
