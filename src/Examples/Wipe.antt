-- ===== src/Examples/Wipe.antt =====
-- wipe_address_space on a host with one mapping that cannot be removed.
use oryx_hurd.Base.{suc, ◌^◌, ◌≡◌, false, none, some, ltb, if◌then◌else◌, arith}
use oryx_hurd.Host.{Host}
use oryx_hurd.Process.Exec.{wipe_loop, wipe_address_space}
use oryx_hurd.Process.Exec.Wipe.{RegionLaws, wipe_address_space-enough}
use oryx_hurd.Examples.Toy.{Toy, toy}
use oryx_hurd.Examples.Processes.{machine}

abbrev stubborn : Host Toy
stubborn = record toy {
  vm_region = λ t a k. if ltb a 0x9000 then some (0x8000, 0x1000, 30) else none;
  vm_deallocate = λ t a n k. (false, k);
}

stubborn-RegionLaws : RegionLaws stubborn
stubborn-RegionLaws = record {
  region_place = λ t a at size obj k e. ground (arith, e);
  region_gone = λ t at size at' size' obj k r e. ground (arith, r);
}

wipe_address_space-enough_example :
    wipe_loop stubborn (suc (2 ^ 20)) 9 0 machine.kernel
    ≡ wipe_address_space stubborn 9 machine.kernel
wipe_address_space-enough_example = wipe_address_space-enough stubborn-RegionLaws 9 machine.kernel
