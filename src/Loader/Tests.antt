-- ===== src/Loader/Tests.antt =====
-- The loader on small files, and its theorems at them.
use u6a.Base.{
  ◌+◌, ◌≡◌, refl, true, false, List, [], ◌∷◌, ◌++◌, not, ◌||◌, leb, arith, if◌then◌else◌,
}
use u6a.Defs.{token, Memory}
use u6a.Defs.TokenFn
use u6a.VmDefs.{offset, VmIns, vm_ins, no_token}
use u6a.VmDefs.Opcode
use u6a.Codegen.{app_ins, la_ins}
use u6a.Bytecode.{text_bytes, header_bytes}
use u6a.Loader.{RuntimeOptions, running, runtime_init, has_offset}
use u6a.Loader.Info.{info, sizes, runtime_info, runtime_info-header_bytes}
use u6a.Loader.RoundTrip.{runtime_init-bytes, loaded-offset, loaded, offset_at, byte_swapped}

abbrev memory : Memory
memory = record { grants = λ _. true; fill = λ i. 0 }

abbrev options : RuntimeOptions
options = record { stack_segment_size = 256; pool_size = 1024; force_exec = false }

-- The text of "`d`ii".
abbrev small_text : List VmIns
small_text =
    vm_ins Opcode.del (offset 3)
    ∷ app_ins (token TokenFn.i 0) (token TokenFn.i 0)
    ∷ la_ins
    ∷ app_ins (token TokenFn.e 0) no_token
    ∷ []

runtime_init-bytes_example :
    runtime_init memory true [] options (
      (b'#' ∷ b'!' ∷ 10 ∷ [])
      ++ (header_bytes 4 2 ++ (text_bytes small_text ++ ((b'x' ∷ 0 ∷ []) ++ 9 ∷ []))))
    ≡ running (loaded true options small_text (b'x' ∷ 0 ∷ []) (9 ∷ []))
runtime_init-bytes_example =
    runtime_init-bytes memory true [] options (b'#' ∷ b'!' ∷ 10 ∷ []) small_text (b'x' ∷ 0 ∷ [])
      (9 ∷ []) (λ size. refl) (omega arith) (omega arith) (omega arith)

-- The delayed expression of "`d`ii" would be resumed at 3 * 2^24.
loaded-offset_example :
    offset_at true (loaded true options small_text [] []).text (5 + 0)
    ≡ (if not true || leb 5 3 then 3 else byte_swapped 3)
unfolding has_offset
loaded-offset_example =
    loaded-offset true options []
      (app_ins (token TokenFn.i 0) (token TokenFn.i 0)
        ∷ la_ins
        ∷ app_ins (token TokenFn.e 0) no_token
        ∷ [])
      (vm_ins Opcode.del (offset 3)) 3 [] [] refl refl (omega arith)

runtime_info-header_bytes_example :
    runtime_info true [] ((b'#' ∷ b'!' ∷ 10 ∷ []) ++ (header_bytes 4 2 ++ (1 ∷ 2 ∷ [])))
    ≡ info 0 1 (sizes 32 2)
runtime_info-header_bytes_example =
    runtime_info-header_bytes true [] (b'#' ∷ b'!' ∷ 10 ∷ []) (1 ∷ 2 ∷ []) 4 2 (omega arith)
      (omega arith) (omega arith)
