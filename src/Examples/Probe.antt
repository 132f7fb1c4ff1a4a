-- ===== src/Examples/Probe.antt =====
-- The probe's thread at an int $0x80, and at another fault.
use oryx_hurd.Base.{ℕ, List, true, false, [], ◌∷◌, ◌==◌, if◌then◌else◌}
use oryx_hurd.Probe.{ProbeHost, Probe, Reply}
use oryx_hurd.Examples.Toy.{Toy, toy, bytes_from, zero_regs}
use oryx_hurd.Examples.Processes.{machine}

abbrev toy_probe : ProbeHost Toy
toy_probe = record {
  host = toy;
  memory = λ k a n. bytes_from (k.mem 0) a n;
  send = λ r k. (true, record k { replies = r.port ∷ r.id ∷ r.code ∷ k.replies });
  pthread_create = λ k. (true, k);
}

-- Three numbers of the toy are one reply.
abbrev replies_of : List ℕ → List Reply
replies_of [] = []
replies_of (port ∷ []) = []
replies_of (port ∷ id ∷ []) = []
replies_of (port ∷ id ∷ code ∷ rest) =
    record { port = port; id = id; code = code } ∷ replies_of rest

abbrev replies_sent : Toy → List Reply
replies_sent k = replies_of k.replies

-- At address 0 of zeros.
abbrev faulting : Probe Toy
faulting = record { handled = false; kernel = machine.kernel }

abbrev writing : Probe Toy
writing = record {
  handled = false;
  kernel = record (machine.kernel) {
    mem = λ t x. if x == 0 then 0xcd else 0x80;
    regs = λ t. record zero_regs { eax = 4; ebx = 1; edx = 5 };
  };
}
