-- ===== src/Main/Laws/Pumps.antt =====
-- Making and destroying the pumps of the pipeline.
use malincam.Prelude.{
  ℕ, ◌≡◌, refl, ◌∙◌, ap, ◌<◌, Option, none, some, inl, inr, arith, get_elem?, Bool-cases,
}
use malincam.Prelude.Outcome.{done}
use malincam.Device.{DeviceStream, memory_dmabuf_export, memory_dmabuf_import, is_mplane}
use malincam.Pump.{
  Pump, PassFunc, pass_dmabuf_mp, pass_dmabuf_sp_to_mp, pass_dmabuf_mp_to_sp, pass_dmabuf_sp,
}
use malincam.Array
use malincam.Array.{Block, null, live, freed}
use malincam.Queue.Laws.{slots_of}
use malincam.Queue
use malincam.Pump.Pass.{get_pass_func}
use malincam.Pump.Pass.Chosen.{get_pass_func_lem}
use malincam.Pump.Create.{pump_destroy}
use malincam.Pump.Create.Fresh.{pump_create_lem}
use malincam.Pump.Ownership.{IsStocked}
use malincam.Node.{Node}
use malincam.Node.Steady.{Steady, SteadyNode, restate}
use malincam.Main.{
  Machine, camera, processor, encoder, gadget, Side, input_side, output_side, End, Link, first_link,
  second_link, third_link, source, destination, pump_at, put_pump, side_of, Pipeline, State,
  node_at, stream_at,
}
use malincam.Main.Switch.{make_pump, drop_pump}
use malincam.Main.Laws.{SteadyNodes, same_node}

-- Between exported and imported buffers there always is a way.
pub pass_found :
    (src dst : DeviceStream)
    → src.buffer_memory ≡ memory_dmabuf_export
    → dst.buffer_memory ≡ memory_dmabuf_import
    → (func : PassFunc) × (get_pass_func src dst ≡ some func)
pass_found src dst out into = elim (Bool-cases (is_mplane src.buf_type)) [
  | inl src_mp ↦ elim (Bool-cases (is_mplane dst.buf_type)) [
    | inl dst_mp ↦ (pass_dmabuf_mp, (get_pass_func_lem src dst pass_dmabuf_mp).1 (ground arith))
    | inr dst_sp ↦
        (pass_dmabuf_mp_to_sp, (get_pass_func_lem src dst pass_dmabuf_mp_to_sp).1 (ground arith))
  ]
  | inr src_sp ↦ elim (Bool-cases (is_mplane dst.buf_type)) [
    | inl dst_mp ↦
        (pass_dmabuf_sp_to_mp, (get_pass_func_lem src dst pass_dmabuf_sp_to_mp).1 (ground arith))
    | inr dst_sp ↦ (pass_dmabuf_sp, (get_pass_func_lem src dst pass_dmabuf_sp).1 (ground arith))
  ]
]

-- There is a pump, as `pumpCreate` makes it.
abbrev pub Pumping : Pipeline → Link → Type 0
Pumping p link =
    (pump : Pump) × (pump_at p link ≡ some pump) × ((n : ℕ) × IsStocked pump.available n)

-- What `pumpDestroy` frees has not been freed.
abbrev pub Destroyable : Pipeline → Link → Type 0
Destroyable p link = pump_destroy (pump_at p link) ≡ done tt

release-live :
    (block : Block ℕ) (i : ℕ) (slot : Option ℕ)
    → get_elem? (slots_of block) i ≡ some slot
    → (block' : Block ℕ) × (Array.release block ≡ done block')
release-live null i slot at = absurd (ground arith)
release-live (live slots) i slot at = (freed, refl)
release-live freed i slot at = absurd (ground arith)

-- A pump as `pumpCreate` makes it can be destroyed.
pub destroy-stocked :
    (pump : Pump) (n : ℕ) → IsStocked pump.available n → pump_destroy (some pump) ≡ done tt
unfolding pump_destroy Queue.finalize Array.destroy
destroy-stocked pump n stocked =
    let (d, at, small) = stocked.named pump.available.front stocked.front_in in
    let (block, frees) = release-live pump.available.array.block pump.available.front (some d) at in
    rw frees refl

some-inj : {x y : DeviceStream} → some x ≡ some y → x ≡ y
some-inj same = cc

some_of :
    (end end' : Option DeviceStream) (st : DeviceStream)
    → end ≡ some st
    → Steady end end'
    → (st' : DeviceStream) × (end' ≡ some st') × (st' ≡ restate st st'.state)
some_of (some x) (some st') st at steady =
    (st', refl, steady ∙ ap (λ z. restate z st'.state) (some-inj at))
some_of none end' st at steady = absurd (ground arith)
some_of (some x) none st at steady = absurd steady

side-Steady :
    (node node' : Node) (side : Side)
    → SteadyNode node node'
    → Steady (side_of node side) (side_of node' side)
side-Steady node node' input_side steady = steady.0
side-Steady node node' output_side steady = steady.1

module _ (machine : Machine) where
  open machine use {platform}
  open platform.host.driver use {Kernel}

  -- The ends of a pump are there; the source exports its buffers, the destination imports, and has
  -- some.
  pub record Wired (w : State machine) (link : Link) : Type 0 where
    pub src : DeviceStream
    pub dst : DeviceStream
    pub src_at : stream_at machine w (source link) ≡ some src
    pub dst_at : stream_at machine w (destination link) ≡ some dst
    pub exports : src.buffer_memory ≡ memory_dmabuf_export
    pub imports : dst.buffer_memory ≡ memory_dmabuf_import
    pub some_room : 0 < dst.buffers_count

  stream_at-Steady :
      (w w' : State machine) (end : End) (st : DeviceStream)
      → SteadyNodes machine w w'
      → stream_at machine w end ≡ some st
      → (st' : DeviceStream) × (stream_at machine w' end ≡ some st') × (st' ≡ restate st st'.state)
  stream_at-Steady w w' end st steady at =
      some_of (stream_at machine w end) (stream_at machine w' end) st at (
        side-Steady (node_at machine w end.part) (node_at machine w' end.part) end.side
          (steady end.part))

  pub SteadyNodes-Wired :
      (w w' : State machine) (link : Link) → SteadyNodes machine w w' → Wired w link → Wired w' link
  SteadyNodes-Wired w w' link steady wired =
      let (src, src_at, src_same) =
        stream_at-Steady w w' (source link) wired.src steady wired.src_at in
      let (dst, dst_at, dst_same) =
        stream_at-Steady w w' (destination link) wired.dst steady wired.dst_at in
      record {
        src = src;
        dst = dst;
        src_at = src_at;
        dst_at = dst_at;
        exports = ap (λ st. st.buffer_memory) src_same ∙ wired.exports;
        imports = ap (λ st. st.buffer_memory) dst_same ∙ wired.imports;
        some_room = ground (arith, wired.some_room, ap (λ st. st.buffers_count) dst_same);
      }

  -- A change of a pump leaves the nodes.
  pub put_pump-Steady :
      (w : State machine) (link : Link) (pump : Option Pump)
      → SteadyNodes machine w (record w { app = put_pump w.app link pump })
  put_pump-Steady w first_link pump camera = same_node w.app.cam
  put_pump-Steady w first_link pump processor = same_node w.app.isp
  put_pump-Steady w first_link pump encoder = same_node w.app.enc
  put_pump-Steady w first_link pump gadget = (refl, tt)
  put_pump-Steady w second_link pump camera = same_node w.app.cam
  put_pump-Steady w second_link pump processor = same_node w.app.isp
  put_pump-Steady w second_link pump encoder = same_node w.app.enc
  put_pump-Steady w second_link pump gadget = (refl, tt)
  put_pump-Steady w third_link pump camera = same_node w.app.cam
  put_pump-Steady w third_link pump processor = same_node w.app.isp
  put_pump-Steady w third_link pump encoder = same_node w.app.enc
  put_pump-Steady w third_link pump gadget = (refl, tt)

  pub make_pump_lem :
      (w : State machine) (link : Link)
      → Wired w link
      → (pump : Pump) × (make_pump machine w link
          ≡ done (record w { app = put_pump w.app link (some pump) }))
        × ((n : ℕ) × IsStocked pump.available n)
  unfolding make_pump
  make_pump_lem w link wired =
      let (func, found) = pass_found wired.src wired.dst wired.exports wired.imports in
      let (pump, makes, passes, planes, idle, long, unacquired, stocked) =
        pump_create_lem wired.src wired.dst func found wired.some_room in
      (pump, rw (wired.src_at, wired.dst_at, makes) refl, (wired.dst.buffers_count, stocked))

  pub drop_pump_lem :
      (w : State machine) (link : Link)
      → Destroyable w.app link
      → drop_pump machine w link ≡ done (record w { app = put_pump w.app link none })
  unfolding drop_pump
  drop_pump_lem w link can = rw can refl
