-- ===== src/Base64.antt =====
-- libtools/src/base64.c: conversion between binary data and Base64 text.
pub mod Codes
pub mod Encode
pub mod Decode
pub mod Spec
pub mod RoundTrip
pub mod Bounds
mod Tests
