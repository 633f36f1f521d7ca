-- ===== src/Lib.antt =====
-- MicroPython on Ameba-RTOS: the parts of the port in ports/ameba-rtos-m/src that keep state of
-- their own.
--
-- The port is a set of C modules called by the MicroPython runtime. They share little state: each
-- module owns its objects and calls the SDK (flash driver, lwIP, FreeRTOS, USB, hardware timers).
-- Raised exceptions are values (`Py.Result`); what the SDK answers is an argument of the
-- definitions, by rounds where a loop asks again.
--
-- Prelude, Py: shared names and lemmas, signed integers, errors.
--
-- Flash - ameba_flash.c, the block device `Flash` below the file system. `readblocks`,
--   `writeblocks`, `ioctl` are amb_flash_readblocks, amb_flash_writeblocks, amb_flash_ioctl. The flash
--   driver is `Device`, its documented laws `IsNor`. Addresses keep the wrap-around of 32 bits.
-- Socket - modsocket.c. Socket: the object and its construction, timeouts (_socket_settimeout).
--   Socket/Retry: the loop `for (i = 0; i <= retries; i++)` that all transfers share. Socket/Transfer:
--   _socket_read_data, _socket_send, socket_sendall, socket_stream_write, socket_sendto,
--   socket_accept. Socket/Connect: socket_connect and its polls. Socket/Events: the list of sockets with
--   callbacks (socket_events_...). Socket/Stream: socket_stream_ioctl, bind, listen, setsockopt and
--   _getaddrinfo_inner.
-- Ota - modota.c, the firmware upgrade. Ota: construction, finaliser, write, finish. Ota/Pipe: the
--   tasks that share the stream buffer, as a step relation (ota_user_read_cb, ameba_ota_del).
-- Threads - mpthreadport.c, the list of threads: mp_thread_init, mp_thread_start, freertos_entry,
--   mp_thread_create_ex, mp_thread_finish, mp_thread_gc_others, mp_thread_deinit, each one step under
--   the list's mutex.
-- Timer - machine_timer.c, the table of hardware timers and its holders (machine_timer_alloc,
--   machine_timer_init_helper, machine_timer_make_new, machine_timer_deinit).
-- Rtc - machine_rtc.c, the alarm and its deferred re-arm (machine_rtc_alarm,
--   machine_rtc_alarm_irq_handler, machine_rtc_alarm_rearm_scheduled, machine_rtc_alarm_cancel).
-- Usb - machine_usbserial.c, the serial port over USB: driver life, transmit against completions,
--   the receive buffer.
-- RingBuf - the byte queue of the MicroPython core that Usb, Uart and I2s use, as an interface with its
--   laws; an implementation that fills it stands in RingBuf/Tests.
-- PinName - the pin arguments of the serial modules (machine_uart_get_pin, mp_machine_uart_print).
-- Uart - machine_uart.c. Uart: configuration, construction, interrupt registration. Uart/Receive: the
--   RxIrq branch of machine_uart_irq_handler. Uart/Read: mp_machine_uart_read. Uart/Transmit:
--   mp_machine_uart_write, uart_fill_tx_fifo and the TxIrq branch, as a step relation of thread and
--   interrupt. Uart/Flush: the time limit of mp_machine_uart_ioctl.
-- Pwm - machine_pwm.c, the eight channels on one timer. Pwm/Period: the period and the prescaler of
--   mp_machine_pwm_freq_set. Pwm/Shared: what it does to the other channels. Pwm/Channels: the table
--   (mp_machine_pwm_make_new, machine_pwm_alloc_channel, machine_pwm_find_by_pin, deinit).
-- I2s - machine_i2s.c. I2s, I2s/Life: the object with its memory (mp_machine_i2s_init_helper,
--   start_transfer, mp_machine_i2s_deinit, mp_machine_i2s_irq_update). I2s/Transmit, I2s/Receive: the
--   two halves of the DMA buffer between the controller and the ring buffer (i2s_tx_feed_half,
--   i2s_rx_drain_half and the two interrupts), as step relations.
-- I2cTarget - machine_i2c_target.c, i2c_target_irq_handler with the calls that it makes, as a function
--   of what the registers show; I2cTarget/Trace: the protocol of those calls.
-- Can - machine_can.c. Can/Slots, Can/Send: the transmit slots (machine_can_port_send, can_port_isr,
--   machine_can_port_irq_flags, machine_can_port_restart). Can/Frames: frames and time segments.
--   Can/Errors: the error counters over a sequence of interrupts.
-- Pin - machine_pin.c, the table of pins and their lookup (machine_pin_table_init, machine_pin_find),
--   and what a pin does in each mode (machine_pin_init_helper, mp_pin_make_new, machine_pin_call,
--   machine_pin_on, machine_pin_off, machine_pin_toggle, machine_pin_ioctl).
-- Wlan - network_wlan.c. Wlan: the object as an access point (wlan_ap_start, wlan_active, wlan_config,
--   wlan_ifconfig), over what Wlan/Sdk says of the driver, lwIP and the DHCP server. Wlan/Fits,
--   Wlan/Served, Wlan/Reach: the invariant over any calls. Wlan/Orders, Wlan/Stored: the order of
--   `config` and `active`, and what is stored. Wlan/Station, Wlan/Connects: wlan_connect,
--   wlan_disconnect. Wlan/Scan: wlan_scan, wlan_status.
-- Terminal - mphalport.c, the REPL's terminal: mp_hal_stdio_poll, mp_hal_stdin_rx_chr over the hooks
--   that run while it waits, mp_hal_stdout_tx_strn. Terminal/Keys: log_uart_irq. Terminal/Input: the
--   poll against the reader.
-- Clock - mphalport.c, wall_clock_now_ms, _gettimeofday, _settimeofday, mp_hal_delay_us,
--   mp_hal_delay_ms, over the times at which the counters are read.
-- I2c - machine_i2c.c with the constructor of machine_i2c_target.c: two roles of one controller.
--   I2c/Roles: which is refused. I2c/Reset: the clean-up of both.
-- Spi - machine_spi.c: mp_machine_spi_init_helper (Spi/Init) and machine_spi_transfer (Spi/Exchange).
-- SdCard - machine_sdcard.c, the block device over the SD driver of the SDK: machine_sdcard_try_init,
--   readblocks, writeblocks, ioctl.
-- Bitstream - machine_bitstream.c: machine_bitstream_high_low over its two paths, the LED controller
--   (bitstream_ledc_pack) and bitstream_software_fallback (Bitstream/Paths).
-- Boot - mp_main.c: the soft reset composes the clean-ups of Uart, I2c, Spi, Pwm, I2s, Rtc and Threads
--   and the finalisers of Timer (Boot/Quiet); gc_get_max_new_split.
--
-- Loops that poll run on fuel, and `none` is a loop still running when the fuel is used up. Fuel above
-- the number of rounds is enough: retries + 2 for a socket with a finite timeout, the
-- rounds until the task ends for `Ota.write`; for each byte of a UART read the looks in which the clock
-- moves by 2^16 ms; the length of the list for the socket events; eight rounds for the finished
-- buffers of a CAN interrupt; a socket without a timeout polls for ever where nothing happens, as its
-- counter wraps at 32 bits. A wait of the terminal or of a delay runs over the list of the hooks or of
-- the reads of the clock that happen in it, and `none` is a wait that goes on after the list's end.
-- Other loops are structural.
--
-- Not modelled: the interpreter of the MicroPython core and the SDK, which are not in the
-- repository; the conversion of arguments and results; print beyond pin names, attr and the constant
-- tables; the filters of the CAN controller, the ADC and Ethernet modules, and the
-- start of the interpreter in mp_main.c. These set registers through the SDK, or wait for a later
-- extension of this library.
pub mod Prelude
pub mod Py
pub mod Bitstream
pub mod Boot
pub mod Can
pub mod Clock
pub mod Flash
pub mod I2c
pub mod I2cTarget
pub mod I2s
pub mod Ota
pub mod Pin
pub mod PinName
pub mod Pwm
pub mod RingBuf
pub mod Rtc
pub mod SdCard
pub mod Socket
pub mod Spi
pub mod Terminal
pub mod Threads
pub mod Timer
pub mod Uart
pub mod Usb
pub mod Wlan
