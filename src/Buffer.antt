-- ===== src/Buffer.antt =====
-- `snprintf` into a fixed array at a running offset, as `forward_list_json` of src/forward.c uses it:
-- `pos += snprintf(buf + pos, size - pos, ...)`. `pos` is an `int` and `size - pos` a `size_t`.
use Prim.Native.Nat.{max}
use adb_termux_bridge.Base.{
  ℕ, ◌+◌, ◌-◌, ◌%◌, ◌≤◌, ◌<◌, min, ◌≡◌, refl, [], ◌∷◌, ◌++◌, arith, ◌==◌, if◌then◌else◌, length,
  take, length-append, take_all, Bytes,
}

abbrev pub size_mod : ℕ
size_mod = 18446744073709551616

-- The C string that stands at the array's start, the running offset, and one more than the largest
-- index written so far.
pub record Output : Type 0 where
  pub text : Bytes
  pub offset : ℕ
  pub extent : ℕ

-- `size - pos` as a `size_t`: below 0 it wraps around.
unfoldable pub room : ℕ → ℕ → ℕ
room size at = (size + size_mod - at) % size_mod

-- One call: at most `room - 1` bytes and a NUL are written, nothing where there is no room. Behind a
-- NUL that an earlier, cut off call wrote, the new bytes do not join the string.
unfoldable pub snprintf_at : ℕ → Bytes → Output → Output
unfolding room
snprintf_at size s o =
    let copied = min (length s) (room size o.offset - 1) in
    record {
      text = if o.offset == length o.text then o.text ++ take copied s else o.text;
      offset = o.offset + length s;
      extent = if room size o.offset == 0 then o.extent else max o.extent (o.offset + copied + 1);
    }

abbrev pub start : Output
start = record { text = []; offset = 0; extent = 0 }

-- All that was printed so far fits: the array holds `s`, and nothing outside was written.
pub record Holds (size : ℕ) (s : Bytes) (o : Output) : Type 0 where
  pub text_is : o.text ≡ s
  pub offset_is : o.offset ≡ length s
  pub inside : o.extent ≤ size

pub start-Holds : (size : ℕ) → Holds size [] start
start-Holds size = record { text_is = refl; offset_is = refl; inside = omega arith }

room_inside : (size at : ℕ) → size < size_mod → at ≤ size → room size at ≡ size - at
unfolding room
room_inside size at h k = omega arith

pub snprintf_at-Holds :
    (size : ℕ) (t s : Bytes) (o : Output)
    → size < size_mod
    → length t + length s < size
    → Holds size t o
    → Holds size (t ++ s) (snprintf_at size s o)
unfolding snprintf_at
snprintf_at-Holds size t s o small fits h =
    let e = room_inside size o.offset small (omega arith) in
    record {
      text_is =
          ground (
            arith,
            e,
            h.text_is,
            h.offset_is,
            take_all (min (length s) (room size o.offset - 1)) s,
          );
      offset_is = omega (arith, length-append t s);
      inside = ground (arith, e);
    }

pub offset-snprintf_at :
    (size : ℕ) (s : Bytes) (o : Output) → (snprintf_at size s o).offset ≡ o.offset + length s
unfolding snprintf_at
offset-snprintf_at size s o = refl

-- Once the offset has passed the size, the next call writes outside the array.
pub snprintf_at_overflow :
    (size : ℕ) (c : ℕ) (s : Bytes) (o : Output)
    → size < o.offset
    → o.offset + length (c ∷ s) + 1 < size_mod
    → size + length (c ∷ s) + 1 < (snprintf_at size (c ∷ s) o).extent
unfolding snprintf_at room
snprintf_at_overflow size c s o past int = ground arith
