-- ===== src/Examples/Gdb.antt =====
-- A client of GDB's protocol, with functions in the place of the libraries that it uses.
use door86c.Common.{
  ℕ, ◌/◌, ◌%◌, ◌≡◌, refl, sym, subst, arith, Bool, true, false, ◌&&◌, some, List, [], ◌∷◌, ◌++◌,
  ◌==◌, if◌then◌else◌, codes, contains,
}
use door86c.Machine.Fits.{CoreFits}
use door86c.Debugger.{
  DebugResponse, running, stopped, step, stepping, terminate, step_in, add_command, int1, resumed,
}
use door86c.Debugger.Gdb.Library.{hex_digit, Library, IsDocumented, ok}
use door86c.Debugger.Gdb.Remote.{arrived, Remote, frame, checksum, response}
use door86c.Debugger.Gdb.Request.{digit_value, starts_digit, read_digits, request}
use door86c.Debugger.Gdb.Client.{Gdb, handle_line}
use door86c.Debugger.Gdb.Packets.{arrivals, connected, packet, request-frame, request-spoiled}
use door86c.Debugger.Gdb.Accepted.{Accepted, request-Accepted}
use door86c.Debugger.Gdb.Replies.{refusals, copies, response_lem}
use door86c.Debugger.Gdb.Values.{read_words, read_bytes}
use door86c.Debugger.Gdb.Registers.{registers_of}
use door86c.Debugger.Gdb.Dumps.{handle_line-memory}
use door86c.Debugger.Gdb.Resumes.{small_s, handle_line-Asks}
use door86c.Debugger.Gdb.Session.{readable, drain, run}
use door86c.Debugger.Gdb.Reports.{drain-frames}
use door86c.Debugger.Gdb.EndToEnd.{run-registers}
use door86c.Examples.Data.{machine}

begins : List ℕ → List ℕ → Bool
begins s [] = true
begins [] (d ∷ ds) = false
begins (c ∷ cs) (d ∷ ds) = c == d && begins cs ds

begins-append : (p rest : List ℕ) → begins (p ++ rest) p ≡ true
unfolding begins
begins-append [] rest = refl
begins-append (d ∷ ds) rest = ground (arith, begins-append ds rest)

rest_of : (s p : List ℕ) → begins s p ≡ true → (rest : List ℕ) × (s ≡ p ++ rest)
unfolding begins
rest_of s [] h = (s, refl)
rest_of [] (d ∷ ds) h = cc
rest_of (c ∷ cs) (d ∷ ds) h =
    let (rest, e) = rest_of cs ds (ground arith) in let same : c ≡ d = ground arith in (rest, cc)

-- The texts between the commas.
split_commas : List ℕ → List ℕ → List (List ℕ)
split_commas word [] = word ∷ []
split_commas word (c ∷ cs) =
    if c == b',' then word ∷ split_commas [] cs else split_commas (word ++ c ∷ []) cs

abbrev library : Library
library = record {
  hex02 = λ n. hex_digit (n / 16) ∷ hex_digit (n % 16) ∷ [];
  starts_with = begins;
  split_string = λ s delims. split_commas [] s;
  to_u32 = read_digits 0;
  to_int = read_digits 0;
}

library-IsDocumented : IsDocumented library
library-IsDocumented = record {
  hex02_byte = λ n h. refl;
  starts_with_iff = λ s p. (
    rest_of s p,
    λ found. subst (λ t. begins t p ≡ true) (sym found.1) (begins-append p found.0),
  );
}

abbrev idle : Remote
idle = record { is_open = true; incoming = []; sent = [] }

abbrev ended : DebugResponse
ended = record { id = terminate; state = stopped; thread_id = 1; exit_code = 7 }

abbrev gdb : Gdb
gdb = record {
  backend = record {
    cmds = step_in ∷ [];
    responses = ended ∷ [];
    state = stopped;
    attached = true;
  };
  cpu = machine;
  remote = idle;
  default_thread_id = 0;
}

machine-CoreFits : CoreFits machine.core
machine-CoreFits = record {
  regs_fit = record {
    ax_fits = omega arith;
    cx_fits = omega arith;
    dx_fits = omega arith;
    bx_fits = omega arith;
    sp_fits = omega arith;
    bp_fits = omega arith;
    si_fits = omega arith;
    di_fits = omega arith;
  };
  sregs_fit = record {
    cs_fits = omega arith;
    es_fits = omega arith;
    ds_fits = omega arith;
    fs_fits = omega arith;
    gs_fits = omega arith;
    ss_fits = omega arith;
  };
  flags_fit = omega arith;
  ip_fits = omega arith;
}

-- Characters behind an acknowledgement, then the packet, and a 0 behind the array.
request-frame_example :
    request
      (0 ∷ [])
      (connected (arrivals (codes "+") ++ (arrivals (frame library (codes "qC")) ++ [])) [])
    ≡ ok (codes "qC", connected [] (codes "+"))
unfolding contains starts_digit digit_value
request-frame_example =
    request-frame library (0 ∷ []) (codes "+") [] (codes "qC") [] library-IsDocumented refl refl
      refl

-- `qC` with the checksum 0.
request-spoiled_example :
    request []
      (connected (arrivals (packet 0 (codes "qC")) ++ arrivals (frame library (codes "qC"))) [])
    ≡ ok ([], connected [] [])
unfolding contains starts_digit checksum
request-spoiled_example =
    request-spoiled library [] [] (codes "qC") 0 library-IsDocumented refl refl (omega arith)
      (omega arith) (omega arith)

request-Accepted_example :
    Accepted [] (codes "?") (arrivals (codes "$?#3F")) [] (connected [] (codes "+"))
unfolding request
request-Accepted_example =
    request-Accepted [] [] (codes "?") (arrivals (codes "$?#3F")) (connected [] (codes "+")) refl
      (cc)

response_lem_example :
    response library (codes "OK") (connected (refusals 2 (arrived b'+' ∷ [])) [])
    ≡ (true, connected [] (copies 3 (frame library (codes "OK"))))
response_lem_example = response_lem library 2 (codes "OK") [] []

drain-frames_example :
    drain library (ended ∷ []) (record gdb { remote = connected (arrived b'+' ∷ []) [] })
    ≡ ok (record gdb {
      backend = record gdb.backend { responses = [] };
      remote = connected [] (frame library (codes "W07") ++ []);
    })
drain-frames_example = drain-frames library (ended ∷ []) [] [] gdb

handle_line-memory_example :
    (text : List ℕ) × (handle_line library
        (λ i. running)
        (codes "m7100,2")
        (record gdb { remote = connected (arrived b'+' ∷ []) [] })
      ≡ ok (true, record gdb { remote = connected [] (frame library text) }))
    × (read_bytes text ≡ some (0 ∷ 0 ∷ []))
unfolding split_commas read_digits
handle_line-memory_example =
    handle_line-memory library (λ i. running) (codes "7100,2") (codes "7100") (codes "2") [] [] []
      gdb library-IsDocumented (λ i. omega arith) refl (omega arith) (omega arith) (omega arith)

handle_line-Asks_example :
    (g' : Gdb) × (handle_line library (λ i. running) (codes "vCont;s:1") gdb ≡ ok (true, g'))
    × (g' ≡ record gdb { backend = add_command step gdb.backend; remote = g'.remote })
    × (int1 2 g'.backend ≡ some (record gdb.backend { cmds = []; state = stepping }))
unfolding resumed
handle_line-Asks_example =
    handle_line-Asks library (λ i. running) b's' (codes ":1") step stepping gdb library-IsDocumented
      (small_s refl) refl (refl, tt)

run-registers_example :
    (text : List ℕ) × (read_words text ≡ some (registers_of machine.core))
    × (run library
          (record { selected = readable; seen = λ i. running; beyond = [] } ∷ [])
          (record gdb {
            remote =
                connected
                  (arrivals []
                    ++ (arrivals (frame library (codes "g")) ++ (arrived b'+' ∷ arrived b'+' ∷ [])))
                  [];
          })
        ≡ ok (record gdb {
          backend = record gdb.backend { responses = [] };
          remote =
              connected []
                ((codes "+" ++ frame library text) ++ (frame library (codes "W07") ++ []));
        }))
unfolding contains starts_digit
run-registers_example =
    run-registers library (λ i. running) [] [] [] [] [] gdb library-IsDocumented machine-CoreFits
      refl refl refl
