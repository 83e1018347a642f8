-- ===== src/Utils.antt =====
-- common-lib/common-lib/utils: byte memory, the owning `buffer` and the view `cbuffer_view`.
pub mod Memory
pub mod Buffer
pub mod View
