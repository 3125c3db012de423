-- ===== src/Xvc/Ioctl.antt =====
-- The `ioctl` of the character device: `char_ctrl_ioctl` of modules/xvc-driver/files/xvc_driver_base.c
-- for a device whose bridge is mapped, and `xil_xvc_readprops` of xvc_driver.c. The lock that it holds
-- is left out.
use thesis_software.Base.{
  ℕ, ◌^◌, ◌<◌, ◌≡◌, refl, Option, none, some, [], ◌∷◌, ◌++◌, arith, ◌==◌, if◌then◌else◌, length,
  take, drop, length-drop,
}
use thesis_software.Base.Int.{ℤ, pos, minus}
use thesis_software.Xvc.Kernel.{Bytes, copied_out, Trace, Kernel, done, Act, pure}
use thesis_software.Xvc.Shift.{enomem, le_bytes, le_value, xil_xvc_ioctl}

-- The command of a call.
pub data Command : Type 0 where
  xdma_iocxvc : Command
  xdma_rdxvc_props : Command
  other_command : Command

abbrev pub enoioctlcmd : ℕ
enoioctlcmd = 515

-- "xlnx,xvc" with its terminator.
abbrev pub debug_bridge_compat_string : Bytes
debug_bridge_compat_string = b'x' ∷ b'l' ∷ b'n' ∷ b'x' ∷ b',' ∷ b'x' ∷ b'v' ∷ b'c' ∷ 0 ∷ []

-- `struct xil_xvc_properties`, whose string of 64 bytes starts as what the stack held.
abbrev pub properties : ℕ → ℕ → Bytes → Bytes
properties base size held =
    le_bytes 8 base ++ (le_bytes 8 size ++ (debug_bridge_compat_string ++ drop 9 held))

unfoldable pub xil_xvc_readprops : Kernel → ℕ → ℕ → Bytes → ℕ → Act ℤ
xil_xvc_readprops k base size held arg t =
    let props = properties base size held in
    if k.copy_out t arg props == 0
    then done (pos 0) (copied_out arg props ∷ t)
    else done (minus enomem) t

-- The base address and the size that are told.
abbrev pub told : Option (ℕ × ℕ) → ℕ × ℕ
told none = (0, 0)
told (some r) = r

unfoldable pub char_ctrl_ioctl : Kernel → Option (ℕ × ℕ) → Bytes → Command → ℕ → Act ℤ
char_ctrl_ioctl k db_res held xdma_iocxvc arg = xil_xvc_ioctl k arg
char_ctrl_ioctl k db_res held xdma_rdxvc_props arg =
    xil_xvc_readprops k (told db_res).0 (told db_res).1 held arg
char_ctrl_ioctl k db_res held other_command arg = pure (minus enoioctlcmd)

le_value-le_bytes : (v : ℕ) → v < 2 ^ 64 → le_value (le_bytes 8 v) ≡ v
unfolding le_value le_bytes
le_value-le_bytes v h = omega (arith, h)

-- Where the user's memory can be written, a request for the properties returns 0 and hands out 80
-- bytes: the start and the size of the bridge's memory in little-endian order, the compatibility
-- string with its terminator, and behind it 55 bytes of whatever the stack held.
pub char_ctrl_ioctl-props :
    (k : Kernel) (base size : ℕ) (held : Bytes) (arg : ℕ) (t : Trace)
    → base < 2 ^ 64
    → size < 2 ^ 64
    → length held ≡ 64
    → ((t' : Trace) (bs : Bytes) → k.copy_out t' arg bs ≡ 0)
    → (out : Bytes) × (char_ctrl_ioctl k (some (base, size)) held xdma_rdxvc_props arg t
        ≡ done (pos 0) (copied_out arg out ∷ t))
      × (length out ≡ 80)
      × (le_value (take 8 out) ≡ base)
      × (le_value (take 8 (drop 8 out)) ≡ size)
      × (take 9 (drop 16 out) ≡ debug_bridge_compat_string)
      × (drop 25 out ≡ drop 9 held)
unfolding char_ctrl_ioctl xil_xvc_readprops le_bytes
char_ctrl_ioctl-props k base size held arg t b s e whole =
    let props = properties base size held in
    (
      props,
      rw (whole t props) refl,
      omega (arith, length-drop 9 held),
      le_value-le_bytes base b,
      le_value-le_bytes size s,
      refl,
      refl,
    )
