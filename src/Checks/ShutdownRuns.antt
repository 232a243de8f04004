-- ===== src/Checks/ShutdownRuns.antt =====
-- The front door is told to stop while two requests are under way, and one of them is slow to write.
use taxi_app.Base.{true, false, ◌≡◌, refl, ◌⊎◌, arith}
use taxi_app.Api.Shutdown.{
  draining, drained, closing_trip, ended, failed, Server, started, main_next, main, signal, expire,
  accept, answer, write_trip, Reach, start, later, Runs,
}
use taxi_app.Api.Shutdown.Closing.{writers_open}
use taxi_app.Api.Shutdown.Ending.{main_ends}

abbrev two_under_way : Server
two_under_way = record started { active = 2 }

abbrev told : Server
told = record two_under_way { signalled = true }

abbrev closing : Server
closing = record told { phase = draining; listening = false }

abbrev one_left : Server
one_left = record closing { active = 1 }

abbrev one_writes : Server
one_writes = record one_left { trip_writes = 1 }

abbrev too_late : Server
too_late = record one_writes { expired = true }

abbrev one_closed : Server
one_closed = record too_late { phase = closing_trip; trip_open = false }

-- The last request then still writes to the writer that is being closed.
too_late_reached : Reach too_late
unfolding main_next
too_late_reached =
    later {s = one_writes}
      (later {s = one_left}
        (later {s = closing}
          (later {s = told}
            (later {s = two_under_way}
              (later {s = record started { active = 1 }} (later start (accept refl refl))
                (accept refl refl))
              (signal refl))
            (main refl))
          (answer 1 refl (omega arith) refl))
        (write_trip refl (omega arith) refl))
      (expire refl refl)

one_closed_reached : Reach one_closed
unfolding main_next
one_closed_reached =
    later {s = record too_late { phase = drained }} (later too_late_reached (main refl)) (main refl)

writers_open_example :
    ((one_closed.trip_open ≡ true) × (one_closed.loc_open ≡ true))
    ⊎ ((one_closed.listening ≡ false) × ((one_closed.active ≡ 0) ⊎ (one_closed.expired ≡ true)))
writers_open_example = writers_open one_closed_reached

main_ends_example :
    (t : Server) × Runs too_late t
    × (t.active ≡ 1)
    × ((t.phase ≡ failed)
        ⊎ ((t.phase ≡ ended)
            × (t.listening ≡ false)
            × (t.trip_open ≡ false)
            × (t.loc_open ≡ false)
            × (t.trip_writes ≡ 0)
            × (t.loc_writes ≡ 0)))
main_ends_example = main_ends too_late_reached refl refl
