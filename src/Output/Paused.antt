-- ===== src/Output/Paused.antt =====
-- What a pause of src/output/StreamThreadBase.cpp guarantees.
use satpi.Base.{◌≡◌, refl, true}
use satpi.Output.Threads.{
  Threads, Reads, Controls, Run, ReadsOn, running, paused, at_loop, returned, started, begin_read,
  end_read, see_pause, write_paused, pause_streaming, see_paused, time_out, restart_streaming, here,
  reads, controls, stay, go,
}

-- The state says `Paused` only while the reading thread is at its loop, and a pause that is done has
-- left it so.
pub record IsInStep (t : Threads) : Type 0 where
  pub idle : t.state ≡ paused → t.reader ≡ at_loop
  pub done : t.control ≡ returned true → t.state ≡ paused

Reads-IsInStep : {t t' : Threads} → IsInStep t → Reads t t' → IsInStep t'
Reads-IsInStep v (begin_read c) = record {
  idle = λ e. absurd (cc);
  done = λ e. let no : running ≡ paused = v.done e in absurd (cc);
}
Reads-IsInStep v (end_read s c) = record { idle = λ e. refl; done = v.done }
Reads-IsInStep v (see_pause c) = record { idle = λ e. absurd (cc); done = v.done }
Reads-IsInStep v (write_paused s c) = record { idle = λ e. refl; done = λ e. refl }

Controls-IsInStep : {t t' : Threads} → IsInStep t → Controls t t' → IsInStep t'
Controls-IsInStep v (pause_streaming s r c w) = record {
  idle = λ e. absurd (cc);
  done = λ e. absurd (cc);
}
Controls-IsInStep v (see_paused r) = record { idle = v.idle; done = λ e. refl }
Controls-IsInStep v (time_out s r) = record { idle = v.idle; done = λ e. absurd (cc) }
Controls-IsInStep v (restart_streaming s r c w) = record {
  idle = λ e. absurd (cc);
  done = λ e. absurd (cc);
}

Run-IsInStep : {t t' : Threads} → IsInStep t → Run t t' → IsInStep t'
Run-IsInStep v here = v
Run-IsInStep v (reads run step) = Reads-IsInStep (Run-IsInStep v run) step
Run-IsInStep v (controls run step) = Controls-IsInStep (Run-IsInStep v run) step

started-IsInStep : IsInStep started
started-IsInStep = record { idle = λ e. refl; done = λ e. absurd (cc) }

-- A thread that is at its loop while the state is `Paused` does nothing.
no_read : {t t' : Threads} {A : Type 0} → t.state ≡ paused → t.reader ≡ at_loop → Reads t t' → A
no_read s r (begin_read c) = absurd (cc)
no_read s r (end_read s' c) = absurd (cc)
no_read s r (see_pause c) = absurd (cc)
no_read s r (write_paused s' c) = absurd (cc)

stays :
    {t t' : Threads}
    → t.state ≡ paused
    → t.reader ≡ at_loop
    → ReadsOn t t'
    → (t'.state ≡ paused) × (t'.reader ≡ at_loop)
stays s r stay = (s, r)
stays s r (go on step) = let (s', r') = stays s r on in no_read s' r' step

-- However the two threads interleave from the start on, whichever pauses ran out of time before: after
-- a pause that is done the reading thread is at its loop and reads nothing, as long as the thread of
-- the requests does not go on.
pub pause-IsIdle :
    (t t' : Threads)
    → Run started t
    → t.control ≡ returned true
    → ReadsOn t t'
    → (t'.state ≡ paused) × (t'.reader ≡ at_loop)
pause-IsIdle t t' run done on =
    let v = Run-IsInStep started-IsInStep run in stays (v.done done) (v.idle (v.done done)) on
