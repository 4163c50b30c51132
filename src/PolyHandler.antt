-- ===== src/PolyHandler.antt =====
-- lib/util/poly_handler.hpp: a move-only function object that is called once. Small callables live in
-- the handler's own storage, big ones in a heap buffer. `Memory` counts what is made and unmade:
-- callables constructed and destroyed, and heap buffers allocated and freed.
pub mod Lifetimes
mod Tests
use boost_beast_websocket_ec.Prelude.{
  ℕ, suc, ◌*◌, Bool, true, false, Option, none, some, if◌then◌else◌, ltb,
}

pub record Memory : Type 0 where
  pub constructed : ℕ
  pub destroyed : ℕ
  pub allocated : ℕ
  pub freed : ℕ

-- detail::sbo_storage: nothing, a callable in short_, or long_ with or without a buffer
pub data Storage (F : Type 0) : Type 0 where
  raw : Storage F
  short : F → Storage F
  long : Option F → Storage F

-- The two tables that implement poly_handler_vtable.
pub data Kind : Type 0 where
  small big : Kind

pub record PolyHandler (F : Type 0) : Type 0 where
  pub storage : Storage F
  pub kind : Option Kind

-- What a call does: it throws std::bad_function_call, or it invokes a callable.
pub data Called (F : Type 0) : Type 0 where
  bad_function_call : Called F
  invoked : F → Called F

abbrev construct : Memory → Memory
construct m = record m { constructed = suc m.constructed }

abbrev destruct : Memory → Memory
destruct m = record m { destroyed = suc m.destroyed }

abbrev free : Memory → Memory
free m = record m { freed = suc m.freed }

-- sizeof(sbo_storage), for pointers of `pointer_size` bytes
abbrev pub storage_size : ℕ → ℕ
storage_size pointer_size = 6 * pointer_size

module _ {F : Type 0} where
  -- A table only meets storage that it filled itself; for any other the functions below change
  -- nothing. This is move_construct from a value.
  place : Kind → F → Memory → Storage F × Memory
  place small f m = (short f, construct m)
  place big f m = (long (some f), construct (record m { allocated = suc m.allocated }))

  -- move_construct from other storage: the source afterwards, the new storage, and the memory
  unfoldable pub relocate : Kind → Storage F → Memory → Storage F × Storage F × Memory
  relocate small (short f) m = (short f, short f, construct m)
  relocate small raw m = (raw, raw, m)
  relocate small (long p) m = (long p, raw, m)
  relocate big (long p) m = (long none, long p, m)
  relocate big raw m = (raw, raw, m)
  relocate big (short f) m = (short f, raw, m)

  -- destroy
  unfoldable pub clear : Kind → Storage F → Memory → Memory
  clear small (short f) m = destruct m
  clear small raw m = m
  clear small (long p) m = m
  clear big (long none) m = m
  clear big (long (some f)) m = free (destruct m)
  clear big raw m = m
  clear big (short f) m = m

  -- invoke: the callable is moved out, and the moved one is destroyed after the call
  unfoldable pub invoke : Kind → Storage F → Memory → Called F × Memory
  unfolding clear
  invoke small (short f) m = (invoked f, destruct (clear small (short f) (construct m)))
  invoke small raw m = (bad_function_call, m)
  invoke small (long p) m = (bad_function_call, m)
  invoke big (long (some f)) m = (invoked f, destruct (clear big (long none) (free (construct m))))
  invoke big (long none) m = (bad_function_call, m)
  invoke big raw m = (bad_function_call, m)
  invoke big (short f) m = (bad_function_call, m)

  -- poly_handler()
  unfoldable pub empty_handler : PolyHandler F
  empty_handler = record { storage = raw; kind = none }

  -- poly_handler(Actual actual), for a callable of `size` bytes
  unfoldable pub from_actual : ℕ → ℕ → F → Memory → PolyHandler F × Memory
  unfolding place
  from_actual pointer_size size f m =
      let k = if ltb (storage_size pointer_size) size then big else small in
      let (st, m') = place k f m in (record { storage = st; kind = some k }, m')

  -- poly_handler(poly_handler &&other): `other` afterwards, the new handler, and the memory
  unfoldable pub move : PolyHandler F → Memory → PolyHandler F × PolyHandler F × Memory
  unfolding relocate
  move other m = elim other.kind [
    | none ↦ (record other { kind = none }, record { storage = raw; kind = none }, m)
    | some k ↦
        (let (left, st, m') = relocate k other.storage m in
          (record { storage = left; kind = none }, record { storage = st; kind = some k }, m'))
  ]

  -- ~poly_handler()
  unfoldable pub destroy : PolyHandler F → Memory → Memory
  unfolding clear
  destroy h m = elim h.kind [ none ↦ m | some k ↦ clear k h.storage m ]

  -- operator=(poly_handler &&other) of two handlers: `other` afterwards, this one, and the memory
  unfoldable pub assign :
      PolyHandler F → PolyHandler F → Memory → PolyHandler F × PolyHandler F × Memory
  unfolding move destroy
  assign this other m = move other (destroy this m)

  -- operator()
  unfoldable pub call : PolyHandler F → Memory → Called F × PolyHandler F × Memory
  unfolding invoke
  call h m = elim h.kind [
    | none ↦ (bad_function_call, h, m)
    | some k ↦
        (let (r, m') = invoke k h.storage m in (r, record { storage = raw; kind = none }, m'))
  ]

  unfoldable pub has_value : PolyHandler F → Bool
  has_value h = elim h.kind [ none ↦ false | some k ↦ true ]
