-- ===== src/Examples/Channels.antt =====
-- Alice's payment as a call through the request channel (internal/server/client.go).
use sg_emulator.Base.{refl, true, [], ap, arith}
use sg_emulator.Server.{Request, Response}
use sg_emulator.Client.{Delivery}
use sg_emulator.Channel.{Queued, System, initial, submit, delivery, serve, Step, Reach}
use sg_emulator.Channel.Order.{IsOrdered, Reach-IsOrdered}
use sg_emulator.Channel.Serial.{IsSerial, Reach-IsSerial}
use sg_emulator.Channel.Shutdown.{Drained, shutdown_answers}
use sg_emulator.Examples.Data.{two}
use sg_emulator.Examples.Signed.{pay_bob}
use sg_emulator.Examples.Servers.{env, draw, after_pay, pay_bob_done}

abbrev payment : Queued
payment = record { call = 0; request = Request.transfer pay_bob }

abbrev waiting : System
waiting = submit (Request.transfer pay_bob) (initial two)

abbrev paid : System
paid = serve draw payment [] (Delivery.answered Response.done) after_pay waiting

paid-Reach : Reach env two paid
unfolding submit initial
paid-Reach =
    Reach.later (Reach.later Reach.start (Step.submitted (Request.transfer pay_bob) (omega arith)))
      (Step.served draw payment [] (Delivery.answered Response.done) after_pay refl
        (ap delivery pay_bob_done) refl)

Reach-IsSerial_example : IsSerial env two paid
Reach-IsSerial_example = Reach-IsSerial env two paid paid-Reach

Reach-IsOrdered_example : IsOrdered paid
Reach-IsOrdered_example = Reach-IsOrdered env two paid paid-Reach

-- The server is told to stop while the payment waits.
abbrev stopping : System
stopping = record waiting { is_cancelled = true }

shutdown_answers_example : (t : System) × Drained env stopping t
shutdown_answers_example = shutdown_answers env stopping refl
