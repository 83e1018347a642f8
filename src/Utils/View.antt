-- ===== src/Utils/View.antt =====
-- cbuffer_view (utils/internal/buffer-view/cbuffer-view.cpp): a pointer and a size, owning nothing.
use common.Base.{
  ℕ, none, some, Bool, true, false, leb, if◌then◌else◌, Outcome, throws, out_of_range,
}
use common.Utils.Memory.{Pointer, read}
use common.Utils.Buffer.{Buffer}

pub record CbufferView : Type 0 where
  pub m_buffer : Pointer
  pub m_size : ℕ

-- `cbuffer_view()`
unfoldable pub null_view : CbufferView
null_view = record { m_buffer = none; m_size = 0 }

-- `cbuffer_view(buf)`, the conversion from a buffer
unfoldable pub of_buffer : Buffer → CbufferView
of_buffer buf = record { m_buffer = buf.m_buffer; m_size = buf.m_size }

-- `operator[]`, unchecked
unfoldable pub get : CbufferView → ℕ → Outcome ℕ
get v pos = read v.m_buffer pos

-- `operator bool`, and `data()` as a condition
unfoldable pub to_bool : CbufferView → Bool
to_bool v = elim v.m_buffer [ none ↦ false | some bytes ↦ true ]

unfoldable pub at : CbufferView → ℕ → Outcome ℕ
unfolding get
at v pos = if leb v.m_size pos then throws out_of_range else get v pos
