-- ===== src/Driver/Connection.antt =====
-- jack.cc and the constructor of `Engine` in engine.cc: the start without a server.
use amprack_6_pc.Base.{ℕ, ◌≡◌, refl, true, none, some}
use amprack_6_pc.Driver.{
  Jack, open_driver, get_buffer_size, get_sample_rate, open_audio, started, crashed, start_engine,
}

-- Without a JACK client the start of the engine crashes: it has a default for the sample rate, and
-- asks the null client for the buffer size. With a client, but a server that failed, it goes on
-- with the default rate.
pub start_engine-without_jack :
    (j : Jack)
    → (j.client_open ≡ none → start_engine j ≡ crashed)
      × ((c : ℕ)
          → j.client_open ≡ some c
          → j.server_failed ≡ true
          → start_engine j ≡ started 48000 j.buffer_size)
unfolding start_engine open_driver open_audio get_buffer_size get_sample_rate
start_engine-without_jack j = (
  λ e. rw (e, start_engine, open_driver) refl,
  λ c e f. rw (e, f, start_engine, open_driver) refl,
)
