-- ===== src/Lib.antt =====
-- The user-space programs and the XVC driver of SpikeVision (the repository is thesis-software):
-- the programs that move event files and camera frames through the AXI DMA engine of a Kria board,
-- the keyboard control of the neural filter, the kernel driver that shifts JTAG words through the
-- Xilinx debug bridge, and the server that hands it the shifts of its clients.
--
-- The files of the repository and their modules:
--   apps/stream-from-file-app/files/helper.c   Helper   the reader of event files: hexchar_to_uint8,
--     HEX_LUT (hex_lut), parseLine (parse_line), readNextLine (read_next_line)
--   apps/stream-from-file-app/files/dma-api.c  Dma      the DMA channels: resetDmaChannel
--     (reset_dma_channel) and so on, waitDmaTransmissionDone (wait_dma_transmission_done); the register
--     offsets of dma-api.h are in Dma.Mm2s and Dma.S2mm; Dma.Sysfs has getPhyAddr and getBufSize
--   apps/stream-from-file-app/files/stream-from-file-app.c  Stream   the loop of main, which
--     sends an event file in chunks of 128 lines and receives frames into a ring of eight: the fill loop
--     (fill_chunk), the frame that has come (receive_frame), one round (round), the loop (stream_loop); in
--     Stream.Devices what leads to it (open_devices) and both together (run_streamer); in Stream.Main the
--     whole program (stream_main)
--   apps/filtered-camera-feed-app/files/filtered-camera-feed-app.c  Camera   the receive loop of main
--     (feed_loop) and the start of its channel (start_feed); in Camera.Start what leads to it (feed_main)
--   apps/filter-control-app/files/filter-control-app.c  Filter   the whole program: main and the parts
--     of its body, set_terminal_raw, cleanup, and the loop with its keys
--   apps/loopback-app-c/files/loopback-app.c   Loopback   the loopback test: the transmission, the wait
--     and the comparison (run_loopback); in Loopback.Main the argument, sysfs and the devices
--   modules/xvc-driver/files/xvc_driver.c      Xvc.Shift   xil_xvc_shift_bits and xil_xvc_ioctl;
--     Xvc.Ioctl has xil_xvc_readprops and char_ctrl_ioctl of xvc_driver_base.c
--   modules/xvc-driver/files/xvc_driver_base.c  Xvc.Module   probe, remove, xil_xvc_init, xil_xvc_exit
--     and xil_xvc_cleanup
--   modules/xvc-driver/files/xvc-driver.c      Xvc.Template   the platform driver of the module's template,
--     which the Makefile does not build: xvc_driver_probe with its labels (error1, error2, error3),
--     xvc_driver_remove, xvc_driver_init and xvc_driver_exit
--   apps/xvc-driver-app/files/xvcServer.c      Server   one connection: sread and handle_data, a command
--     at a time (command); Server.Listen has the loop over the descriptors (serve, scan) and
--     Server.Start the start of main and the whole run (run_server); Server.Uio has the shift without
--     USE_IOCTL (uio_shift)
-- The server hands its clients' shifts to the driver: Server.Client and Server.Chain join the two, from a
-- client's text to the bytes that it gets back; Server.Lengths has the lengths that the driver is asked for, and
-- Server.Script a client with several shifts.
-- apps/filtered-camera-feed-app has its own copies of helper.c and dma-api.c.
--
-- State. A user-space program's state is the trace of its calls of the system and its accesses to
-- registers (World.Trace), and what the system answers is the parameter World.Env: every answer
-- may depend on everything before it. In the same way Xvc.Kernel.Kernel answers the driver's
-- accesses to the bridge, to user memory and to the allocator, Xvc.Module.Calls.Core what the
-- module registers, Xvc.Template.Platform the template's calls, and Server.Sockets.Net the
-- server's sockets and the driver behind its ioctl. What the C library makes of a text is a
-- parameter too (Dma.Sysfs.Texts, Loopback.Scan). A body with several returns is cut at the calls
-- that decide on them, into functions named for what is there from then on (main_opened has the
-- device, with_tdi has the TMS bytes).
--
-- Numbers are natural numbers with the wrap-around of the C type written out. In the driver and
-- the server, an access outside of a buffer, the overflow of an int and a descriptor beyond
-- FD_SETSIZE are the outcome `fault`; in the loopback test, an access beyond the size that a buffer
-- is mapped with is the end `faults`.
--
-- Bounds. poll_control runs with the 100 polls of the source. poll_status falls with timeout_ms, a
-- uint8_t. shift_loop gets length / 32 + 2 rounds, one for each word, one for a shorter last word
-- and one for the last test; a run out of rounds would be a `fault`, so the model hides no endless
-- loop. fill_chunk gets 129 rounds or more where the file is not looped, one for each line of a
-- chunk and one for the test behind the last, and 258 under --loop, where each line may be the
-- first behind a return to the file's start; where it has too few its result says so (spins).
-- stream_loop is bounded by a number of rounds, since the program serves the engine for ever, as
-- is feed_loop, and key_loop by one, since a user who presses no key keeps the program running.
-- sread_from gets as many reads as bytes are asked for, each of which brings one or more. scan
-- gets FD_SETSIZE turns and one. uio_loop gets a round for each byte and one, and each round
-- shifts a byte or more; poll_ctrl is bounded by a number of polls, since a bridge that is never
-- done keeps it. handle_data is bounded by a number of commands, and serve by a number of rounds,
-- since the server runs until `select` fails.
--
-- Not modelled: console output, hexdump with it; the size of the source buffer of stream-from-
-- file-app.c, which is taken to hold a chunk; what stands behind its loop and that of
-- filtered-camera-feed-app.c, which is never reached; the mapping of the registers of xvcServer.c
-- without USE_IOCTL; the spin lock of char_ctrl_ioctl and the names and numbers of the devices;
-- u-dma-buf, another project's driver; the Python programs and the firmware.
pub mod Base
pub mod Helper
pub mod World
pub mod Dma
pub mod Camera
pub mod Stream
pub mod Filter
pub mod Xvc
pub mod Server
pub mod Loopback
mod Tests
