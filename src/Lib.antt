-- ===== src/Lib.antt =====
-- ice9-api: the library by which a host talks to an ice9 board over USB.
--
-- The library has three parts. `ice9.c` moves data: it opens the board's USB bridge through libusb,
-- resets it, switches it to FIFO mode, writes commands, words and blocks, and reads answers
-- (`ice9_read`) and streams (`ice9_stream_read`). Each transfer that the bridge sends is made of
-- packets of at most 512 bytes that begin with two status bytes; what a read gets beyond the bytes
-- asked for waits in a ring buffer for the next read. A second path for streams hands packets to
-- `read_callback`, which fills the caller's block and banks the rest. `mpsse.c` drives the MPSSE
-- engine of the FTDI chip through libftdi, and `sram_flash.c` configures the FPGA by it. The third
-- part, `ftdi_stream_ice9.c`, streams through several asynchronous transfers of libusb at once.
-- What all of them report goes through the loggers of `logger.c`, which the caller can replace.
--
-- Which file models what:
--   Prelude.antt     lists and arithmetic over the native numbers, memory blocks with bounds
--                    (Slice), words as bytes (Words), bit operations (Bits), C's `int` where it
--                    can be negative (Int), and programs that call a library (Program)
--   ErrorCode.antt   ice9.h, `enum Ice9Error`; ice9.c, `ice9_error_string`
--   Ring.antt        ice9.c, `bytes_in_read_buffer`, `free_space_in_read_buffer`,
--                    `drain_from_read_buffer`, `enqueue_to_read_buffer`; Ring/Queue.antt is the
--                    bounded queue that they are to be, Ring/Trip.antt an enqueue and a drain
--                    after it, Ring/Abstract.antt the ring buffer up to where its bytes lie
--   Host.antt        ice9.c, `struct ice9_handle`, `lib_try`, and the calls of libusb; the modules
--                    Keeps of Host, Read, Register and Device hold what each function leaves as
--                    it was; Mpsse/Traffic.antt does the same for mpsse.c, and Mpsse/Trace.antt
--                    for its `mpsse_init`
--   Read.antt        ice9.c, `ice9_read`, `ice9_stream_read`; Read/View.antt is the stream of
--                    bytes that the transfers carry
--   Register.antt    ice9.c, `ice9_write` and all functions of words, registers and pings
--   Device.antt      ice9.c, `ice9_new`, `ice9_free`, `ice9_open`, `ice9_close`,
--                    `ice9_usb_reset`, `ice9_fifo_mode`
--   Session.antt     ice9.h, the calls that a program makes on a handle, in any order
--   Callback.antt    ice9.c, `transfer_bytes`, `bank_bytes`, `read_callback`; Callback/Overflow.antt
--                    is about copies past the extra data buffer
--   Transfer.antt    ftdi_stream_ice9.c, `FTDIStreamState`, the transfers, and what libusb answers
--   FtdiStream.antt  ftdi_stream_ice9.c, all functions
--   Logger.antt      logger.c, all functions; logger.h, `LOG_INFO` and `LOG_ERROR`
--   Ftdi.antt        mpsse.c, its variables, `enum mpsse_cmd`, and the calls of libftdi
--   Mpsse.antt       mpsse.c, all functions
--   Sram.antt        sram_flash.c, chip select, commands, replies, `ice9_flash_fpga` and
--                    `ice9_flash_fpga_mem`; Sram/Status.antt is its `print_ecp5_status_register`
--   Lattice.antt     lattice_cmds.h, the commands of the FPGA and the tables of devices
-- Each component's child modules hold its theorems, and Tests its runs on concrete inputs.
--
-- How the code is modelled. A function that calls libusb or libftdi is a program (Prelude.Program)
-- over the list of the replies that its calls get, one for each call whose result is used, and a
-- state that keeps the calls made with their arguments. It ends in `done`; in `exited`, after a
-- call of `exit`; in `blocked`, when it waits in a call that the list has no reply for; or in
-- `fault`, when it does what C leaves undefined (a `memcpy` outside of a block or of a negative
-- length). Nothing is assumed of the libraries but what a theorem says of the replies. A pointer
-- into a block is its distance from the start, the block a function from distances to bytes, and a
-- block that a caller passes is the list of its bytes. The fields of `struct ice9_handle` are
-- grouped: Ring for the read buffer, Stream for the callback; `bulk_sync_read_buffer`, which no
-- function reads, and `context`, which only goes to libusb, are left out. Counts that the caller
-- passes are non-negative; the host's byte order is little-endian, as the code assumes; a shift
-- of a 32-bit word keeps its wrap-around; `malloc` is taken to succeed but where its failure is
-- handled (FtdiStream).
--
-- In FtdiStream, libusb and the clock are an argument: a list of the rounds of the loop, each with
-- the transfers that libusb is through with meanwhile, their bytes and the time; and a function
-- that says how the set-up of each transfer goes. The caller's callback and C's `double`, in which
-- only the rates of the report are computed, are parameters: a function on the caller's data, and
-- a record of operations of which nothing is assumed. A transfer is in the hands of libusb, idle,
-- or freed, so that a leak or a transfer left behind is seen. The count of bytes has 64 bits.
--
-- Bounds and fuel. The loops on replies recurse on the list of replies, and so need no fuel. The
-- loop that strips status bytes takes the number of the bytes as fuel, of which each round takes
-- two or more; that is why it never runs out. The loop that sends a bitstream from memory takes
-- the bytes left as fuel, of which each round sends one or more. The ring buffer and the extra
-- data buffer have the sizes of the code.
--
-- In Logger, `vsnprintf` is a parameter, with what C documents of it as the hypothesis Formats; a
-- format with its arguments is a message, of which only the text counts. The other parts leave the
-- calls of the loggers out, since no result depends on them; Sram/Status.antt gives the report on
-- the status register as the lines that it has.
--
-- Not modelled: the messages that the other functions log, and the build files. So the call of a
-- logger with an argument too few in the default case of `ice9_error_string`, which C leaves
-- undefined, is left out too. Four things are simpler than in C. The block that `transfer_bytes`
-- copies to has no end, so a caller whose block is shorter than the bytes asked for is not seen.
-- The shift of a high word of 0x8000 or more in `join_words`, which C leaves undefined for an `int`,
-- is taken to move its bits. `mpsse_send_spi` and `mpsse_xfer_spi` with a count
-- beyond the caller's block send the bytes that there are, where C reads on; no function of the
-- library calls them so. And a reply to a bulk write has no bytes that anything reads.
pub mod Prelude
pub mod ErrorCode
pub mod Ring
pub mod Host
pub mod Read
pub mod Register
pub mod Device
pub mod Callback
pub mod Ftdi
pub mod Transfer
pub mod FtdiStream
pub mod Mpsse
pub mod Logger
pub mod Lattice
pub mod Session
pub mod Sram
