-- ===== src/Framework/Buffer.antt =====
-- plugins/test/framework.h and framework.cc: `Buffer`, the body chunk that a plugin reads and
-- writes. The buffer is the text that it owns.
pub mod Laws
use service_extensions_sampl.Base.{
  Text, ℕ, ◌+◌, ◌%◌, ◌^◌, ◌++◌, leb, length, take, drop, if◌then◌else◌,
}
use service_extensions_sampl.Wasm.{WasmResult, ok, invalid_memory_access, Answer, value, refused}

-- `owned_string_buffer_.replace(start, length, data)`, for a start inside the text: the length is
-- cut off at the end.
unfoldable pub replace : Text → ℕ → ℕ → Text → Text
replace s start len t = take start s ++ (t ++ drop (start + len) s)

-- `Buffer::copyTo`, up to the copy into the memory of the module: the bytes to copy. The sum of
-- two 64-bit `size_t` wraps around.
unfoldable pub copy_to : Text → ℕ → ℕ → Answer Text
copy_to buffer start len =
    if leb ((start + len) % 2 ^ 64) (length buffer)
    then value (take len (drop start buffer))
    else refused invalid_memory_access

-- `Buffer::copyFrom`
unfoldable pub copy_from : Text → ℕ → ℕ → Text → WasmResult × Text
unfolding replace
copy_from buffer start len t =
    let from = if leb start (length buffer) then start else length buffer in
    (ok, replace buffer from len t)
