-- ===== src/Xvc.antt =====
-- The Xilinx Virtual Cable: the kernel module modules/xvc-driver and the server
-- apps/xvc-driver-app.
pub mod Kernel
pub mod Shift
pub mod Module
pub mod Ioctl
pub mod Template
