-- ===== src/Subdev/Tests.antt =====
-- A subdevice at concrete inputs, on a kernel in memory.
use malincam.Prelude.{pos, ◌≡◌, refl, ◌⊎◌, arith, List, [], ◌∷◌, length, none, some}
use malincam.Prelude.Outcome.{done}
use malincam.Abi.{einval}
use malincam.V4l2.{zero_rect}
use malincam.Device.Bench.{Bench}
use malincam.Device.Bench.Streams.{filled_bench}
use malincam.Platform.Bench.{obliging, zero_pad}
use malincam.Subdev.{Subdev, SubdevPad, read_pads}
use malincam.Subdev.Formats.{SubdevSet, pad_of, subdev_set}
use malincam.Subdev.Laws.{SetEnds, subdev_set_lem}
use malincam.Subdev.Laws.Ends.{EndsBy, read_pads_return}

abbrev sensor : Subdev
sensor = record {
  fd = 10;
  pads = zero_pad ∷ zero_pad ∷ [];
  controls = record { fd = 10; controls = [] };
}

abbrev wanted : SubdevSet
wanted = record { pad = pos 0; mbus_code = 7; width = 640; height = 480; out_crop = zero_rect }

subdev_set_lem_example :
    ((pad_of sensor wanted.pad ≡ none)
      × (subdev_set Bench obliging filled_bench sensor wanted ≡ (pos einval, filled_bench, wanted)))
    ⊎ ((pad : SubdevPad) × (pad_of sensor wanted.pad ≡ some pad)
        × SetEnds Bench obliging sensor wanted
            (subdev_set Bench obliging filled_bench sensor wanted))
subdev_set_lem_example = subdev_set_lem Bench obliging filled_bench sensor wanted

obliging-EndsBy : EndsBy Bench obliging 0
obliging-EndsBy = record {
  intervals = λ k fd i pad code w h past. (einval, refl);
  sizes = λ k fd i pad code past. (einval, refl);
  codes = λ k fd i pad past. (einval, refl);
}

read_pads_return_example :
    (k' : Bench) × (pads' : List SubdevPad) × (read_pads Bench obliging 1 filled_bench 10 0
        sensor.pads
      ≡ done (k', pads'))
    × (length pads' ≡ 2)
read_pads_return_example =
    read_pads_return Bench obliging 0 obliging-EndsBy 1 filled_bench 10 0 sensor.pads (omega arith)
