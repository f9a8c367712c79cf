-- ===== src/Tests/Ga.antt =====
-- General admission at concrete inputs.
use arena_onsale.Prelude.{ℕ, ◌+◌, ◌≡◌, refl, true, [], ◌∷◌, arith, map, ◌==◌, ◌≤◌, if◌then◌else◌}
use arena_onsale.Prelude.Query.{count_where}
use arena_onsale.Settings.{default_settings}
use arena_onsale.Tables.{Db, GeneralAdmission}
use arena_onsale.Inventory.GaStock.{claim, write_claim}
use arena_onsale.Inventory.GaStock.Accounts.{IsConserved}
use arena_onsale.Inventory.GaService.{Surroundings, ok, reserve, new_reservation}
use arena_onsale.Inventory.GaService.Accounts.{reserve-IsConserved}
use arena_onsale.Inventory.GaService.Retries.{SleepsWell, reserve-SleepsWell}
use arena_onsale.Checkout.Finalizer.{confirm_ga, release_ga, version_guard}
use arena_onsale.Checkout.Finalizer.Ga.{Locked, confirm_ga-IsConserved, release_ga-IsConserved}
use arena_onsale.Checkout.Finalizer.GaRace.{
  alone, on_the_books, capacity_of, confirm_ga-release_ga_oversells,
}
use arena_onsale.Tests.Data.{reservation, ga_db, quiet, buy_two}

-- another buyer takes one ticket, without a row of its own
abbrev bump : Db → Db
bump db = record db {
  ga_inventory =
      map {A = GeneralAdmission} (λ g. record g { version = g.version + 1 }) db.ga_inventory;
}

-- the first two attempts lose the race
abbrev busy : Surroundings
busy = record quiet { between = λ i db. if i == 2 then db else bump db }

busy-reserve :
    let v = reserve busy default_settings buy_two ga_db in
    (v.result ≡ ok (new_reservation default_settings buy_two 100 5) true)
    × (v.delays ≡ 50 ∷ 50 ∷ [])
unfolding reserve claim write_claim
busy-reserve = (refl, refl)

reserve-IsConserved_example : IsConserved 1 (reserve quiet default_settings buy_two ga_db).db
reserve-IsConserved_example =
    reserve-IsConserved 1 quiet default_settings buy_two
      (record { claim_keeps = λ i db c. c; sleep_keeps = λ i db c. c }) ga_db refl

reserve-SleepsWell_example :
    SleepsWell default_settings 2 (reserve busy default_settings buy_two ga_db).delays
reserve-SleepsWell_example =
    reserve-SleepsWell busy default_settings buy_two (λ i a b h. omega arith) ga_db

locked : Locked 7 ga_db ga_db
locked = record { same = refl; one = refl }

confirm_ga-IsConserved_example : IsConserved 1 (confirm_ga alone 7 ga_db).1
confirm_ga-IsConserved_example = confirm_ga-IsConserved alone 1 7 ga_db locked refl refl

one_pool : (n v : ℕ) → count_where (version_guard n v) ga_db.ga_inventory ≤ 1
one_pool n v = ground arith

release_ga-IsConserved_example : IsConserved 1 (release_ga alone 7 ga_db).1
release_ga-IsConserved_example = release_ga-IsConserved alone 1 7 ga_db locked one_pool refl refl

confirm_ga-release_ga_oversells_example :
    let (done, db') = confirm_ga (λ d. (release_ga alone 7 d).1) 7 ga_db in
    (done ≡ true) × (on_the_books 1 db' ≡ capacity_of 1 db' + 2)
unfolding release_ga
confirm_ga-release_ga_oversells_example =
    confirm_ga-release_ga_oversells 7 reservation ga_db refl refl refl refl refl
