-- ===== src/Multiplex/Runs.antt =====
-- A connection with two requests on their way, and a caller that is late.
use cpp17_client.Base.{
  ℕ, ◌+◌, ◌≡◌, refl, arith, List, [], ◌∷◌, ◌++◌, length, true, false, some, none, ok, undefined,
  ◌⊎◌, inl, sym, append-nil, ◌≤◌,
}
use cpp17_client.Base.Readers.{Takes-return, ◌>>=◌, next_byte}
use cpp17_client.Stream.{closed}
use cpp17_client.Header.{ClientIntelligence}
use cpp17_client.Operations.{Operation, Body, parse_body, parse_status}
use cpp17_client.Operations.Progress.{Advances-parse_body}
use cpp17_client.Multiplex.{
  Multiplexer, PendingRequest, Response, find_pending, read_failed, close, with_requests,
  with_flags, take_number, enlist, disconnected, close_all_pending,
}
use cpp17_client.Multiplex.Reading.{read_loop, receive_frame, receive_start, interrupted}
use cpp17_client.Multiplex.Frames.{Reply, error_text, response, reply_bytes}
use cpp17_client.Multiplex.Rounds.{Served, served, others}
use cpp17_client.Multiplex.Misfits.{mismatch, read_loop_misfit}
use cpp17_client.Multiplex.Loop.{Serves, read_loop-Serves}
use cpp17_client.Multiplex.Progress.{IsForward}
use cpp17_client.Multiplex.Ends.{HasEnded, read_loop-HasEnded}
use cpp17_client.Multiplex.Threads.{Threads, ReadThread, Step, Reach}
use cpp17_client.Multiplex.Threads.Places.{IsAccounted, tally, tally_ids}
use cpp17_client.Multiplex.Threads.Safety.{Reach-IsAccounted, close-IsAccounted}
use cpp17_client.Multiplex.Threads.Stranded.{Steps, IsLeft, Steps-IsStranded}

abbrev to_contain : PendingRequest
to_contain = record {
  body_parser = λ status version flags. parse_body (Operation.contains_key (1 ∷ [])) status version;
  expected_opcode = 0x10;
  cache_name = [];
  flags = 0;
}

abbrev fresh : Multiplexer
fresh = record {
  node = record { host = []; port = 11222 };
  protocol_version = 41;
  client_intelligence = ClientIntelligence.hash_distribution_aware;
  connected = true;
  stop_read_loop = false;
  next_message_id = 0;
  topology_id = 0;
  pending = [];
  answers = [];
  updates = [];
}

abbrev waiting : Multiplexer
waiting = with_requests fresh 2 ((0, to_contain) ∷ (1, to_contain) ∷ []) []

-- The second request is answered first, with its key, and then the first one with an error.
abbrev first_reply : Reply
first_reply = record { message_id = 1; status = 0; update = none; content = response 0x10 }

abbrev second_reply : Reply
second_reply = record {
  message_id = 0;
  status = 0x85;
  update = none;
  content = error_text (110 ∷ 111 ∷ []);
}

abbrev first_response : Response
first_response = record { status = some 0; body = Body.empty; error = none; topology_update = none }

abbrev both : List ℕ
both = (reply_bytes first_reply ++ []) ++ (reply_bytes second_reply ++ [])

abbrev first_served : Multiplexer
first_served = served waiting first_reply to_contain first_response

serves_both : (m' : Multiplexer) × Serves waiting both m'
unfolding parse_body parse_status find_pending others
serves_both = (
  _,
  Serves.replied {m = waiting} {r = first_reply} {p = to_contain} (omega arith, tt, refl) refl
      (Served.body_served {bytes = []} refl (Takes-return _)) refl
      (Serves.replied {r = second_reply} {p = to_contain} (omega arith, tt, omega arith) refl
        Served.error_served (sym (append-nil _)) Serves.finished),
)

read_loop-Serves_example :
    read_loop (length both + 1) waiting both 0 ≡ ok (some (read_failed serves_both.0))
read_loop-Serves_example = read_loop-Serves serves_both.1 (refl, refl)

to_contain-IsForward : IsForward to_contain
to_contain-IsForward status version flags =
    Advances-parse_body (Operation.contains_key (1 ∷ [])) status version

read_loop-HasEnded_example :
    (read_loop 3 waiting (0xA1 ∷ 7 ∷ []) 0 ≡ undefined)
    ⊎ HasEnded waiting (read_loop 3 waiting (0xA1 ∷ 7 ∷ []) 0)
read_loop-HasEnded_example =
    read_loop-HasEnded waiting (0xA1 ∷ 7 ∷ []) refl refl
      (to_contain-IsForward, (to_contain-IsForward, tt))

-- A reply to the first request with the opcode of a `put`, and two bytes of a body.
abbrev misfit_reply : Reply
misfit_reply = record { message_id = 0; status = 0; update = none; content = response 0x02 }

read_loop_misfit_example :
    read_loop 2 waiting (reply_bytes misfit_reply ++ (5 ∷ 6 ∷ [])) 0
    ≡ ok (some (read_failed (served waiting misfit_reply to_contain (mismatch waiting))))
unfolding find_pending
read_loop_misfit_example =
    read_loop_misfit 0 waiting 0 0 0x02 none to_contain 5 (6 ∷ []) (refl, refl)
      (omega arith, tt, refl) refl refl refl

-- The peer closes the socket while a caller stands behind the test of `connected_`.
abbrev quiet : Threads
quiet = record {
  mux = fresh;
  callers = [];
  reader = ReadThread.reading;
  offset = 0;
  withdrawn = [];
}

abbrev late_mux : Multiplexer
late_mux = with_requests (with_flags fresh false false) 1 ((0, to_contain) ∷ []) []

abbrev late : Threads
late = record {
  mux = late_mux;
  callers = [];
  reader = ReadThread.ended;
  offset = 0;
  withdrawn = [];
}

late-Reach : Reach [] 6 late
unfolding take_number enlist disconnected interrupted close_all_pending receive_start receive_frame
    ◌>>=◌ next_byte
late-Reach =
    Reach.later
      (Reach.later
        (Reach.later
          (Reach.later
            (Reach.later
              (Reach.later (Reach.start {s = quiet} (refl, refl, refl, refl, refl))
                (Step.enter to_contain refl))
              (Step.fail closed refl (inl refl)))
            (Step.give_up refl))
          (Step.number [] [] to_contain refl))
        (Step.store [] [] 0 to_contain refl))
      (Step.send [] [] 0 refl)

Reach-IsAccounted_example : IsAccounted late
Reach-IsAccounted_example = Reach-IsAccounted (omega arith) late-Reach

close-IsAccounted_example :
    ((close late.mux).pending ≡ [])
    × ((tally (close late.mux).answers 0 ≡ 1) ⊎ (1 ≤ tally_ids late.withdrawn 0))
close-IsAccounted_example = close-IsAccounted 0 (omega arith) late-Reach refl refl (omega arith)

Steps-IsStranded_example : IsLeft late 0
Steps-IsStranded_example = Steps-IsStranded {buffer = []} {s = late} 0 Steps.done (refl, refl, refl)
