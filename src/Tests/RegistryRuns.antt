-- ===== src/Tests/RegistryRuns.antt =====
-- The control interface as a registry of monitors, at concrete requests.
use nyan_real_vdd.Base.{List, [], ◌∷◌, arith}
use nyan_real_vdd.Device.Invariant.{new_device-TableOk}
use nyan_real_vdd.Driver.Ioctl.{IoctlEnv, Request, plug_request, unplug_request, list_request}
use nyan_real_vdd.Driver.Ioctl.Registry.{registry_of}
use nyan_real_vdd.Driver.Ioctl.Refine.{serve_all, SpecRun, serve_all-SpecRun}
use nyan_real_vdd.Tests.Samples.{alone, alone-IsQuiet, waiting_device, hd_plug}

-- A monitor is plugged twice under one cookie, listed and unplugged.
abbrev requests : List (IoctlEnv × Request)
requests =
    (alone, plug_request hd_plug)
    ∷ (alone, plug_request hd_plug)
    ∷ (alone, list_request)
    ∷ (alone, unplug_request 7)
    ∷ []

serve_all-SpecRun_example :
    SpecRun requests
      (serve_all requests waiting_device).0
      (registry_of waiting_device.slots)
      (registry_of (serve_all requests waiting_device).1.slots)
serve_all-SpecRun_example =
    serve_all-SpecRun requests waiting_device
      (
        (alone-IsQuiet, omega arith),
        ((alone-IsQuiet, omega arith), ((alone-IsQuiet, tt), ((alone-IsQuiet, tt), tt))),
      )
      new_device-TableOk
