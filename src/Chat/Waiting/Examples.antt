-- ===== src/Chat/Waiting/Examples.antt =====
-- A wait that times out, whose polls go on until a client subscribes.
use freysa_spark_hackathon.Common.{◌≡◌, refl, true, false, [], ◌∷◌}
use freysa_spark_hackathon.Chat.Waiting.{rejected, timed_out, polled, waiting, run_wait}
use freysa_spark_hackathon.Chat.Waiting.Ends.{run_wait_ends}

run_wait_ends_example :
    (run_wait (polled false ∷ timed_out ∷ polled false ∷ []) waiting
      ≡ record { promise = rejected; polling = true })
    × (run_wait (polled false ∷ timed_out ∷ polled false ∷ polled true ∷ []) waiting
        ≡ record { promise = rejected; polling = false })
run_wait_ends_example =
    run_wait_ends (polled false ∷ timed_out ∷ polled false ∷ []) [] (refl, (refl, tt))
