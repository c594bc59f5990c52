-- ===== src/Tests/Connections.antt =====
-- A pool of internal/performance/connection_pool.go on concrete calls.
use roost_keeper.Prelude.{◌≡◌, ◌∷◌, List, pos, [], refl, inc, insert, delete}
use roost_keeper.ConnectionPool.{create_pool, get_connection}
use roost_keeper.ConnectionPool.Exclusion.{
  Turn, gets, returns, checks, cleans, Lending, run, IsExclusive, IsLent, run-IsLent,
}

-- two callers get a connection, one returns it, and it is cleaned up when it has been idle
abbrev turns : List Turn
turns = gets "a" 1 ∷ gets "b" 2 ∷ returns 3 0 ∷ checks 4 ∷ cleans 100 ∷ []

abbrev lending : Lending
lending = run turns (create_pool 5 (pos 10), [])

run-IsLent_example : IsExclusive lending × IsLent (lending.1) (get_connection "c" 101 (lending.0))
run-IsLent_example = run-IsLent 5 (pos 10) turns "c" 101

lent_out : lending.1 ≡ 1 ∷ []
unfolding run create_pool
lent_out = refl

still_in_channel : lending.0.idle ≡ 0 ∷ []
unfolding run create_pool insert
still_in_channel = refl

-- the connection that the cleanup has destroyed is destroyed again by the next `getConnection`: two
-- connections are active, the size is one, and the count of the destroyed is two
destroyed_twice :
    ((get_connection "c" 101 (lending.0)).1.active ≡ ("b", 1) ∷ ("c", 2) ∷ [])
    × ((get_connection "c" 101 (lending.0)).1.size ≡ pos 1)
    × ((get_connection "c" 101 (lending.0)).1.destroyed ≡ pos 2)
unfolding get_connection run create_pool insert delete inc
destroyed_twice = (refl, refl, refl)
