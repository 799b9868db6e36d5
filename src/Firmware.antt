-- ===== src/Firmware.antt =====
-- rtos/arm/ros2_demo.c: the firmware of a board that talks to an XRCE agent over its UART. The static
-- variables of the file are one record, with the bytes that went out on the UART. What
-- `uart_getc_nonblocking` finds at each of its calls is a list; behind its end nothing arrives.
pub mod Node
pub mod Announce
pub mod Heard
pub mod Speaking
pub mod Announcing
pub mod Running
mod Tests
